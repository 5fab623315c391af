-- ===== src/Controller/Reconcile/Analysis.antt =====
-- internal/controller/pod_controller.go: the branches of `analyze`, the part of reconcileInner from
-- `now := metav1.Now()` on, with the trace that each leaves.
use k8s_health_ai.Prelude.{ℕ, ◌≡◌, refl, ◌⊎◌, inl, inr, String, Outcome, ok, err, List, ◌∷◌}
use k8s_health_ai.Go.Errors.{Error}
use k8s_health_ai.Action.{continue}
use k8s_health_ai.Kube.{Pod, Key}
use k8s_health_ai.Detect.{FailureType}
use k8s_health_ai.Llm.{Diagnosis, FailureContext}
use k8s_health_ai.World.{Answer, Env, Call, World, asked_llm}
use k8s_health_ai.World.Trace.{Extends}
use k8s_health_ai.Collect.Gather.{gather}
use k8s_health_ai.Controller.Patch.{status_writer, patch_diagnosis, patch_diagnosis_status}
use k8s_health_ai.Controller.Patch.Attempts.{WroteLast, PatchEnd, patch_diagnosis-PatchEnd}
use k8s_health_ai.Controller.Changes.{set_analyzing}
use k8s_health_ai.Controller.Reconcile.{
  Result, finished, count_diagnosis, clock, fail, after_llm, after_gather, analyze,
}
use k8s_health_ai.Controller.Reconcile.Results.{
  Failed, Published, PublishEnd, fail-Failed, publish-End,
}

module _ {S : Type 0} (env : Env S) (req : Key) (pod : Pod) (ft : FailureType) (container : String)
    (key : Key) (fp : String) where
  -- The status Analyzing was stored, and the context is gathered in the world `w`.
  pub record Started (before : List Call) (w : World S) : Type 0 where
    pub analyzing : WroteLast status_writer set_analyzing (ok tt) w.calls
    pub extends : Extends before w.calls

  -- The LLM was asked with the gathered context, and gave this answer.
  pub record Asked (before : List Call) (answer : Outcome Error Diagnosis) (asked : List Call)
      : Type 0 where
    pub start : World S
    pub started : Started before start
    pub context : FailureContext
    pub gathered : (gather env pod container ft start).0 ≡ ok context
    pub answered : answer ≡ (env.diagnose context (gather env pod container ft start).1.state).0
    pub call : asked ≡ asked_llm context answer ∷ (gather env pod container ft start).1.calls

  -- The ways in which `analyze` ends, by its result.
  abbrev pub AnalyzeEnd : List Call → Outcome Error Result → List Call → Type 0
  AnalyzeEnd before (ok r) after =
      (r ≡ finished)
      × (now : ℕ) × (diag : Diagnosis) × (asked : List Call) × Asked before (ok diag) asked
      × Published env pod ft container fp now diag asked after
  AnalyzeEnd before (err e) after =
      (PatchEnd status_writer set_analyzing (err e) after × Extends before after)
      ⊎ ((w : World S) × Started before w
          × ((gather env pod container ft w).0 ≡ err e)
          × Failed ft e (gather env pod container ft w).1.calls after)
      ⊎ ((asked : List Call) × Asked before (err e) asked × Failed ft e asked after)
      ⊎ ((now : ℕ) × (diag : Diagnosis) × (asked : List Call) × Asked before (ok diag) asked
          × PublishEnd env pod ft container key fp now diag asked (err e) after)

  abbrev EndsAs : List Call → Outcome Error Result × World S → Type 0
  EndsAs before (r, w) = AnalyzeEnd before r w.calls

  answer-End :
      (before : List Call) (now : ℕ) (diag : Diagnosis) (asked : List Call)
      (r : Outcome Error Result) (after : List Call)
      → Asked before (ok diag) asked
      → PublishEnd env pod ft container key fp now diag asked r after
      → AnalyzeEnd before r after
  answer-End before now diag asked (ok r) after a (same, published) =
      (same, now, diag, asked, a, published)
  answer-End before now diag asked (err e) after a end = inr (inr (inr (now, diag, asked, a, end)))

  llm-End :
      (before : List Call) (now : ℕ) (answer : Outcome Error Diagnosis) (w : World S)
      → Asked before answer w.calls
      → EndsAs before (after_llm env req pod ft container key fp now answer w)
  unfolding after_llm fail count_diagnosis
  llm-End before now (ok diag) w a =
      answer-End before now diag w.calls _ _ a (publish-End env pod ft container key fp now diag w)
  llm-End before now (err e) w a =
      inr (inr (inl (w.calls, a, (fail-Failed env req key.name ft e w).1)))

  gather-End :
      (before : List Call) (now : ℕ) (start : World S) (r : Outcome Error FailureContext)
      → Started before start
      → (gather env pod container ft start).0 ≡ r
      → EndsAs before
          (after_gather env req pod ft container key fp now r (gather env pod container ft start).1)
  unfolding after_gather fail count_diagnosis
  gather-End before now start (err e) s g =
      inr (inl (start, s, g, (fail-Failed env req key.name ft e _).1))
  gather-End before now start (ok fc) s g = llm-End before now _ _ (record {
    start = start;
    started = s;
    context = fc;
    gathered = g;
    answered = refl;
    call = refl;
  })

  start-End :
      (before : List Call) (now : ℕ) (answer : Answer) (w : World S)
      → PatchEnd status_writer set_analyzing answer w.calls
      → Extends before w.calls
      → EndsAs before (
          continue answer
            (λ _ w'.
              let (r, w'') = gather env pod container ft w' in
              after_gather env req pod ft container key fp now r w'')
            w)
  start-End before now (err e) w end x = inl (end, x)
  start-End before now (ok u) w end x =
      gather-End before now w _ (record { analyzing = end; extends = x }) refl

  -- Whatever the API server, the logs and the LLM answer, a run of `analyze` ends in one of these
  -- ways. With no error, Analyzing was stored, the LLM was asked with the gathered context, its
  -- diagnosis was stored and counted, and then the time of the call stored. With an error, one of:
  -- the patch to Analyzing failed with it; gathering failed with it, or the LLM did, and then a
  -- patch to an error status with its message was tried, and the counter raised; or the LLM
  -- answered, and the patch with its diagnosis failed with it, or, that stored and counted, the
  -- patch with the time of the call.
  pub analyze-End :
      (w : World S)
      → AnalyzeEnd w.calls
          (analyze env req pod ft container key fp w).0
          (analyze env req pod ft container key fp w).1.calls
  unfolding analyze clock patch_diagnosis_status
  analyze-End w =
      let w' : World S = record { state = (env.now w.state).1; calls = w.calls } in
      let p = patch_diagnosis-PatchEnd env status_writer key set_analyzing w' in
      let q = patch_diagnosis env status_writer key set_analyzing w' in
      start-End w.calls (env.now w.state).0 q.0 q.1 p.0 p.1
