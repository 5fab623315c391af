-- ===== src/Controller/Reconcile/Quality.antt =====
-- internal/controller/pod_controller.go: the quality of the diagnoses that a run stores.
use k8s_health_ai.Prelude.{ℕ, String, ok, ◌≡◌, List, [], ◌∷◌, ◌++◌, ◌≢◌, refl, ap, ◌∙◌, sym}
use mathlib.Core.Path.{subst}
use k8s_health_ai.Kube.{Pod, Key}
use k8s_health_ai.Detect.{FailureType}
use k8s_health_ai.Llm.{Diagnosis}
use mathlib.Core.List.{append_assoc}
use k8s_health_ai.Api.{ClusterDiagnosis, phase_ready}
use k8s_health_ai.Llm.Parse.Severity.{IsSeverity}
use k8s_health_ai.Controller.Changes.{set_ready}
use k8s_health_ai.Llm.Reliable.{IsReliable, IsComplete, AllComplete}
use k8s_health_ai.Collect.Gather.{gather}
use k8s_health_ai.World.{Env, Call, World, status_written, read_diagnosis, counted}
use k8s_health_ai.Controller.Reconcile.{Result, analyze}
use k8s_health_ai.Controller.Reconcile.Results.{Published}
use k8s_health_ai.Controller.Reconcile.Analysis.{Asked, AnalyzeEnd, analyze-End}

module _ {S : Type 0} (env : Env S) (req : Key) (pod : Pod) (ft : FailureType) (container : String)
    (key : Key) (fp : String) where
  -- The status that was written and accepted is that of a complete diagnosis, which the LLM gave, and
  -- the time of the call was stored behind it.
  pub record StoredComplete (before after : List Call) : Type 0 where
    pub stored : ClusterDiagnosis
    pub earlier : List Call
    pub later : List Call
    pub accepted : after ≡ later ++ status_written stored (ok tt) ∷ earlier
    pub ready : stored.status.phase ≡ phase_ready
    pub graded : IsSeverity stored.status.severity
    pub named : stored.status.model ≢ ""
    pub print : stored.status.observed_fingerprint ≡ fp
    pub silent : stored.status.message ≡ ""
    pub now : ℕ
    pub diagnosis : Diagnosis
    pub complete : IsComplete diagnosis
    pub asked : List Call
    pub by_llm : Asked env req pod ft container key fp before (ok diagnosis) asked
    pub published : Published env pod ft container fp now diagnosis asked after

  -- With a provider that gives complete diagnoses only, as those of NewFromEnv do, an analysis that
  -- ends with no error has written a status that was accepted, with the phase Ready, one of the
  -- four severities, a model's name, the pod's fingerprint and no message. The LLM gave its diagnosis
  -- for the gathered context, and the time of the call was stored behind it.
  pub analyze-StoredComplete :
      IsReliable env.diagnose
      → (w : World S) {r : Result} → (analyze env req pod ft container key fp w).0 ≡ ok r
      → StoredComplete w.calls (analyze env req pod ft container key fp w).1.calls
  unfolding set_ready
  analyze-StoredComplete reliable w {r} e =
      let end : AnalyzeEnd env req pod ft container key fp w.calls (ok r)
          (analyze env req pod ft container key fp w).1.calls =
        subst
          (λ x.
            AnalyzeEnd env req pod ft container key fp w.calls x
              (analyze env req pod ft container key fp w).1.calls)
          e (analyze-End env req pod ft container key fp w) in
      let (same, now, diag, asked, a, published) = end in
      let (cur, rest, last) = published.stored_end in
      let (newer, extended) = published.stamped_extends in
      let complete : IsComplete diag =
        subst AllComplete (sym a.answered)
          (reliable a.context (gather env pod container ft a.start).1.state) in
      record {
        stored = set_ready pod ft container fp now diag cur;
        earlier = read_diagnosis (ok cur) ∷ rest;
        later = newer ++ counted ft "ready" ∷ [];
        accepted =
            extended
            ∙ ap (λ calls. newer ++ counted ft "ready" ∷ calls) last
            ∙ sym (append_assoc newer _ _);
        ready = refl;
        graded = complete.graded;
        named = complete.named;
        print = refl;
        silent = refl;
        now = now;
        diagnosis = diag;
        complete = complete;
        asked = asked;
        by_llm = a;
        published = published;
      }
