-- ===== src/Controller/Reconcile/Results.antt =====
-- internal/controller/pod_controller.go: what `analyze`, the part of reconcileInner that asks the
-- LLM, leaves behind on each of its branches.
use k8s_health_ai.Prelude.{ℕ, ◌≡◌, refl, String, Outcome, ok, err, List, ◌∷◌, ◌⊎◌, inl, inr}
use k8s_health_ai.Go.Errors.{Error, message}
use k8s_health_ai.Action.{continue, pure}
use k8s_health_ai.Kube.{Pod, Key}
use k8s_health_ai.Detect.{FailureType}
use k8s_health_ai.Llm.{Diagnosis}
use k8s_health_ai.World.{Answer, Env, Call, World, counted}
use k8s_health_ai.World.Trace.{Extends}
use k8s_health_ai.Controller.Patch.{
  Mutation, status_writer, metadata_writer, patch_diagnosis, patch_diagnosis_status,
  patch_diagnosis_meta,
}
use k8s_health_ai.Controller.Patch.Attempts.{WroteLast, PatchEnd, patch_diagnosis-PatchEnd}
use k8s_health_ai.Controller.Changes.{set_ready, set_error, set_last_llm_call}
use k8s_health_ai.Controller.Reconcile.{
  Result, finished, count_diagnosis, clock, fail, announce, publish,
}

-- The end of `fail`: an attempt to store the error, then the counter.
pub record Failed (ft : FailureType) (e : Error) (before after : List Call) : Type 0 where
  pub stored : List Call
  pub answer : Answer
  pub stored_end : PatchEnd status_writer (set_error (message e)) answer stored
  pub stored_extends : Extends before stored
  pub count : after ≡ counted ft "error" ∷ stored

-- The end of `publish` with no error: the diagnosis is stored and accepted, it is counted, and the
-- time of the call is stored and accepted.
pub record Published {S : Type 0} (env : Env S) (pod : Pod) (ft : FailureType) (container : String)
    (fp : String) (now : ℕ) (diag : Diagnosis) (before after : List Call) : Type 0 where
  pub stored : List Call
  pub stored_end : WroteLast status_writer (set_ready pod ft container fp now diag) (ok tt) stored
  pub stored_extends : Extends before stored
  pub stamp : ℕ
  pub stamped : WroteLast metadata_writer (set_last_llm_call (env.format_time stamp)) (ok tt) after
  pub stamped_extends : Extends (counted ft "ready" ∷ stored) after

module _ {S : Type 0} (env : Env S) where
  pub fail-Failed :
      (req : Key) (name : String) (ft : FailureType) (e : Error) (w : World S)
      → ((fail env req name ft e w).0 ≡ err e)
        × Failed ft e w.calls (fail env req name ft e w).1.calls
  unfolding fail count_diagnosis patch_diagnosis_status
  fail-Failed req name ft e w =
      let key : Key = record { namespace = req.namespace; name = name } in
      let p = patch_diagnosis-PatchEnd env status_writer key (set_error (message e)) w in
      (
        refl,
        record {
          stored = (patch_diagnosis env status_writer key (set_error (message e)) w).1.calls;
          answer = (patch_diagnosis env status_writer key (set_error (message e)) w).0;
          stored_end = p.0;
          stored_extends = p.1;
          count = refl;
        },
      )

  module _ (pod : Pod) (ft : FailureType) (container : String) (key : Key) (fp : String) (now : ℕ)
      (diag : Diagnosis) where
    abbrev pub stores : Mutation
    stores = set_ready pod ft container fp now diag

    -- The ways in which `publish` ends, by its result. With an error, the diagnosis was not stored,
    -- or it was stored and counted, and the patch with the time of the call failed.
    abbrev pub PublishEnd : List Call → Outcome Error Result → List Call → Type 0
    PublishEnd before (ok r) after =
        (r ≡ finished) × Published env pod ft container fp now diag before after
    PublishEnd before (err e) after =
        (PatchEnd status_writer stores (err e) after × Extends before after)
        ⊎ ((stored : List Call) × (stamp : ℕ) × WroteLast status_writer stores (ok tt) stored
            × Extends before stored
            × PatchEnd metadata_writer (set_last_llm_call (env.format_time stamp)) (err e) after
            × Extends (counted ft "ready" ∷ stored) after)

    abbrev EndsAs : List Call → Outcome Error Result × World S → Type 0
    EndsAs before (r, w) = PublishEnd before r w.calls

    -- behind the second patch
    stamp-End :
        (before stored : List Call) (stamp : ℕ) (answer : Answer) (w : World S)
        → WroteLast status_writer stores (ok tt) stored
        → Extends before stored
        → PatchEnd metadata_writer (set_last_llm_call (env.format_time stamp)) answer w.calls
        → Extends (counted ft "ready" ∷ stored) w.calls
        → EndsAs before (continue answer (λ _. pure {S = World S} finished) w)
    stamp-End before stored stamp (err e) w end x end' x' = inr (stored, stamp, end, x, end', x')
    stamp-End before stored stamp (ok u) w end x end' x' = (
      refl,
      record {
        stored = stored;
        stored_end = end;
        stored_extends = x;
        stamp = stamp;
        stamped = end';
        stamped_extends = x';
      },
    )

    -- behind the first patch
    announce-End :
        (before : List Call) (answer : Answer) (w : World S)
        → PatchEnd status_writer stores answer w.calls
        → Extends before w.calls
        → EndsAs before (continue answer (λ _. announce env ft key) w)
    unfolding announce count_diagnosis clock patch_diagnosis_meta
    announce-End before (err e) w end x = inl (end, x)
    announce-End before (ok u) w end x =
        let t = (env.now w.state).0 in
        let w' : World S = record {
          state = (env.now w.state).1;
          calls = counted ft "ready" ∷ w.calls;
        } in
        let mutate = set_last_llm_call (env.format_time t) in
        let p = patch_diagnosis-PatchEnd env metadata_writer key mutate w' in
        let q = patch_diagnosis env metadata_writer key mutate w' in
        stamp-End before w.calls t q.0 q.1 end x p.0 p.1

    pub publish-End :
        (w : World S) → EndsAs w.calls (publish env pod ft container key fp now diag w)
    unfolding publish patch_diagnosis_status
    publish-End w =
        let p = patch_diagnosis-PatchEnd env status_writer key stores w in
        let q = patch_diagnosis env status_writer key stores w in
        announce-End w.calls q.0 q.1 p.0 p.1
