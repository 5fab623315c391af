-- ===== src/Controller/Lifecycle/Maintained.antt =====
-- internal/controller/pod_controller.go: a run of reconcileInner, put together from its calls.
use k8s_health_ai.Prelude.{
  ℕ, ◌≡◌, refl, String, Bool, true, false, Option, none, some, Outcome, ok, err, ◌==◌,
  if◌then◌else◌,
}
use k8s_health_ai.Prelude.Int.{ℤ}
use k8s_health_ai.Go.Errors.{Error, message, is_not_found, is_already_exists}
use k8s_health_ai.Action.{pure, lift, attempt, ◌>>=◌}
use k8s_health_ai.Kube.{Pod, Key}
use k8s_health_ai.Api.{ClusterDiagnosis}
use k8s_health_ai.Detect.{FailureType, classify, fingerprint, diagnosis_name}
use k8s_health_ai.Llm.{FailureContext, Diagnosis}
use k8s_health_ai.Llm.Reliable.{IsReliable, AllComplete}
use k8s_health_ai.Collect.{want_previous, is_useful, max_events, summarize_events}
use k8s_health_ai.Collect.Gather.{failure_context, previous_logs, fetch_logs, gather}
use k8s_health_ai.World.{Env, World, perform, created}
use k8s_health_ai.Controller.Rate.{last_llm_call}
use k8s_health_ai.Controller.Changes.{
  new_diagnosis, set_analyzing, set_ready, set_error, set_last_llm_call, is_current,
}
use k8s_health_ai.Controller.Reconcile.{
  finished, requeue_in, fail, after_create, create_diagnosis, after_lookup, ensure_diagnosis,
  announce, publish, after_llm, after_gather, analyze, check_rate, rate_limit, after_rate_limit,
  refresh, diagnose_pod, handle_pod, after_get_pod, reconcile_inner,
}
use k8s_health_ai.Controller.Lifecycle.{begin, settle, break, stamp}
use k8s_health_ai.Controller.Lifecycle.Watch.{
  Maintains, Maintains-pure, Maintains-raise, Maintains-if, Maintains-bind, Maintains-attempt,
  Maintains-lift, Watch, patch_status-Maintains, patch_meta-Maintains,
}

module _ {S : Type 0} (env : Env S) (P : World S → Type 0)
    (Seen : ClusterDiagnosis → World S → Type 0) (watch : Watch env P Seen) where
  gather-Maintains :
      (pod : Pod) (container : String) (ft : FailureType)
      → Maintains P (gather env pod container ft)
  unfolding gather fetch_logs previous_logs
  gather-Maintains pod container ft = Maintains-bind P _ _ (Maintains-lift P _) λ spec_yaml.
      Maintains-bind P _ _ (watch.events pod) λ events.
        Maintains-bind P _ _
          (Maintains-attempt P _ (
            Maintains-if P (want_previous ft) _ _
              (Maintains-bind P _ _ (Maintains-attempt P _ (watch.logs pod container true)) λ r.
                Maintains-if P (is_useful r) _ _ (Maintains-lift P r)
                  (watch.logs pod container false))
              (watch.logs pod container false)))
          λ logs. Maintains-pure P (
            failure_context pod container ft spec_yaml
              (summarize_events env.sort_events events max_events) logs)

  fail-Maintains :
      (req : Key) (name : String) (ft : FailureType) (e : Error)
      → Maintains P (fail env req name ft e)
  unfolding fail
  fail-Maintains req name ft e =
      let key : Key = record { namespace = req.namespace; name = name } in
      Maintains-bind P _ _
        (Maintains-attempt P _ (
          patch_status-Maintains env P Seen watch key (set_error (message e))
            (λ a. break (message e) refl)))
        λ _. Maintains-bind P _ _ (watch.counts ft "error") (λ _. Maintains-raise P e)

  announce-Maintains : (ft : FailureType) (key : Key) → Maintains P (announce env ft key)
  unfolding announce
  announce-Maintains ft key = Maintains-bind P _ _ (watch.counts ft "ready") λ _.
      Maintains-bind P _ _ watch.ticks λ t.
        Maintains-bind P _ _
          (patch_meta-Maintains env P Seen watch key (set_last_llm_call (env.format_time t))
            (λ a. stamp (env.format_time t) refl))
          λ _. Maintains-pure P finished

  after_create-Maintains :
      (key : Key) (r : Outcome Error (Unit {0})) → Maintains P (after_create env key r)
  unfolding after_create
  after_create-Maintains key (ok u) = watch.reads key
  after_create-Maintains key (err e) =
      Maintains-if P (is_already_exists e) _ _
        (Maintains-bind P _ _ (watch.reads key) (λ _. watch.reads key)) (Maintains-raise P e)

  module _ (req : Key) (pod : Pod) (ft : FailureType) (container : String)
      (flagged : classify (some pod) ≡ (ft, container, true)) where
    owned-Maintains :
        (key : Key) (r : Outcome Error ClusterDiagnosis)
        → env.set_controller_reference pod (new_diagnosis pod ft key.name) ≡ r
        → Maintains P (
            lift r >>= λ cd.
            attempt (perform (created cd) (env.create cd)) >>= after_create env key)
    owned-Maintains key (ok cd) owned = record {
      ends =
          (Maintains-bind P _ _
            (Maintains-attempt P _ (watch.creates pod ft container key.name cd flagged owned))
            (after_create-Maintains key)).ends;
    }
    owned-Maintains key (err e) owned = record { ends = λ w p. p }

    create_diagnosis-Maintains : (key : Key) → Maintains P (create_diagnosis env pod ft key)
    unfolding create_diagnosis
    create_diagnosis-Maintains key = owned-Maintains key _ refl

    after_lookup-Maintains :
        (key : Key) (r : Outcome Error ClusterDiagnosis)
        → Maintains P (after_lookup env pod ft key r)
    unfolding after_lookup
    after_lookup-Maintains key (ok cd) = Maintains-pure P cd
    after_lookup-Maintains key (err e) =
        Maintains-if P (is_not_found e) _ _ (create_diagnosis-Maintains key) (Maintains-raise P e)

    ensure_diagnosis-Maintains : (key : Key) → Maintains P (ensure_diagnosis env pod ft key)
    unfolding ensure_diagnosis
    ensure_diagnosis-Maintains key =
        Maintains-bind P _ _ (Maintains-attempt P _ (watch.cached key)) (after_lookup-Maintains key)

    module _ (key : Key) (reliable : IsReliable env.diagnose) where
      abbrev print : String
      print = fingerprint pod container

      after_llm-Maintained :
          (now : ℕ) (answer : Outcome Error Diagnosis) (w : World S)
          → AllComplete answer
          → P w
          → P (after_llm env req pod ft container key print now answer w).1
      unfolding after_llm publish
      after_llm-Maintained now (ok diag) w complete p =
          (Maintains-bind P _ _
              (patch_status-Maintains env P Seen watch key
                (set_ready pod ft container print now diag)
                (λ a. settle pod ft container now diag flagged complete refl))
              (λ _. announce-Maintains ft key)).ends
            w p
      after_llm-Maintained now (err e) w complete p = (fail-Maintains req key.name ft e).ends w p

      after_gather-Maintains :
          (now : ℕ) (r : Outcome Error FailureContext)
          → Maintains P (after_gather env req pod ft container key print now r)
      unfolding after_gather
      after_gather-Maintains now (ok fc) = record {
        ends = λ w p.
            after_llm-Maintained now (env.diagnose fc w.state).0 _ (reliable fc w.state)
              ((watch.asks fc).ends w p);
      }
      after_gather-Maintains now (err e) = fail-Maintains req key.name ft e

      analyze-Maintains : Maintains P (analyze env req pod ft container key print)
      unfolding analyze
      analyze-Maintains = Maintains-bind P _ _ watch.ticks λ now.
          Maintains-bind P _ _
            (patch_status-Maintains env P Seen watch key set_analyzing (λ a. begin refl))
            λ _.
              Maintains-bind P _ _ (Maintains-attempt P _ (gather-Maintains pod container ft))
                (after_gather-Maintains now)

      after_rate_limit-Maintains :
          (d : Option ℤ) → Maintains P (after_rate_limit env req pod ft container key print d)
      unfolding after_rate_limit
      after_rate_limit-Maintains (some d) = Maintains-pure P (requeue_in d)
      after_rate_limit-Maintains none = analyze-Maintains

      check_rate-Maintains : (t : Option ℕ) → Maintains P (check_rate env t)
      unfolding check_rate
      check_rate-Maintains none = Maintains-pure P none
      check_rate-Maintains (some ts) = Maintains-bind P _ _ watch.ticks (λ t. Maintains-pure P _)

      refresh-Maintains :
          (cd : ClusterDiagnosis) → Maintains P (refresh env req pod ft container key cd)
      unfolding refresh rate_limit
      refresh-Maintains cd = Maintains-if P (is_current cd print) _ _ (Maintains-pure P finished) (
          Maintains-bind P _ _
            (Maintains-if P (last_llm_call cd == "") _ _ (Maintains-pure P none)
              (check_rate-Maintains (env.parse_time (last_llm_call cd))))
            after_rate_limit-Maintains)

    diagnose_pod-Maintains :
        IsReliable env.diagnose → Maintains P (diagnose_pod env req pod ft container)
    unfolding diagnose_pod
    diagnose_pod-Maintains reliable =
        let key : Key = record {
          namespace = pod.namespace;
          name = diagnosis_name env.sha256_hex pod.namespace pod.name ft;
        } in
        Maintains-bind P _ _ (ensure_diagnosis-Maintains key) (refresh-Maintains key reliable)

  module _ (reliable : IsReliable env.diagnose) (req : Key) where
    flagged-Maintains :
        (pod : Pod) (ft : FailureType) (container : String) (found : Bool)
        → classify (some pod) ≡ (ft, container, found)
        → Maintains P (if found then diagnose_pod env req pod ft container else pure finished)
    flagged-Maintains pod ft container true e =
        diagnose_pod-Maintains req pod ft container e reliable
    flagged-Maintains pod ft container false e = Maintains-pure P finished

    after_get_pod-Maintains : (r : Outcome Error Pod) → Maintains P (after_get_pod env req r)
    unfolding after_get_pod handle_pod
    after_get_pod-Maintains (ok pod) = flagged-Maintains pod _ _ _ refl
    after_get_pod-Maintains (err e) =
        Maintains-if P (is_not_found e) _ _ (Maintains-pure P finished) (Maintains-raise P e)

    -- What every call maintains is maintained by a run of the reconciler, where the LLM's diagnoses
    -- are complete.
    pub reconcile_inner-Maintains : Maintains P (reconcile_inner env req)
    unfolding reconcile_inner
    reconcile_inner-Maintains =
        Maintains-bind P _ _ (Maintains-attempt P _ (watch.pods req)) after_get_pod-Maintains
