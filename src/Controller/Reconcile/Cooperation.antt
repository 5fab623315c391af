-- ===== src/Controller/Reconcile/Cooperation.antt =====
-- internal/controller/pod_controller.go: a cluster and an LLM that answer, and the parts of a run
-- that then end with no error.
use k8s_health_ai.Prelude.{◌≡◌, refl, ◌⊎◌, String, Bool, true, false, Outcome, ok, err}
use k8s_health_ai.Go.Errors.{Error, is_not_found, is_already_exists}
use k8s_health_ai.Kube.{Pod, Key}
use k8s_health_ai.Api.{ClusterDiagnosis}
use k8s_health_ai.Detect.{FailureType}
use k8s_health_ai.Llm.{FailureContext}
use k8s_health_ai.Collect.{want_previous, is_useful, summarize_events, max_events}
use k8s_health_ai.Collect.Gather.{
  pod_key, try_logs, previous_logs, fetch_logs, list_pod_events, failure_context, gather,
}
use k8s_health_ai.World.{Env, fetched_logs}
use k8s_health_ai.Controller.Changes.{set_last_llm_call}
use k8s_health_ai.Controller.Patch.{
  Mutation, Writer, status_writer, metadata_writer, read_with, get_diagnosis, attempt_write,
  after_write, patch_loop, patch_diagnosis, patch_diagnosis_status, patch_diagnosis_meta,
}
use k8s_health_ai.Controller.Patch.Liveness.{server_write, write-server_write}
use k8s_health_ai.Controller.Reconcile.{finished, count_diagnosis, clock, announce}
use k8s_health_ai.Controller.Reconcile.Succeeds.{
  IsOk, Succeeds, Keeps, Succeeds-pure, Succeeds-lift, Keeps-perform, Keeps-lift, Succeeds-attempt,
  Keeps-attempt, Keeps-if, Succeeds-bind, Keeps-bind,
}

-- A cluster and an LLM that answer: from a good state, the pod is read, and the diagnosis is found or
-- created, which leaves a live state, where it is stored; from a live state, every call ends in a
-- live state, and has no error, but that logs may be refused.
pub record Cooperates {S : Type 0} (env : Env S) (Good Live : S → Type 0) : Type 0 where
  pub gets_pod : (key : Key) (s : S) → Good s → IsOk Good (env.get_pod key s)
  pub finds :
      (key : Key) (s : S)
      → Good s
      → IsOk Live (env.get_cached key s)
        ⊎ ((e : Error) × ((env.get_cached key s).0 ≡ err e)
            × (is_not_found e ≡ true)
            × Good (env.get_cached key s).1)
  pub owns :
      (pod : Pod) (cd : ClusterDiagnosis)
      → (owned : ClusterDiagnosis) × (env.set_controller_reference pod cd ≡ ok owned)
  pub creates :
      (cd : ClusterDiagnosis) (s : S)
      → Good s
      → IsOk Live (env.create cd s)
        ⊎ ((e : Error) × ((env.create cd s).0 ≡ err e)
            × (is_already_exists e ≡ true)
            × Live (env.create cd s).1)
  pub reads : (key : Key) (s : S) → Live s → IsOk Live (read_with env env.api_reader key s)
  pub accepts :
      (writer : Writer) (cd : ClusterDiagnosis) (s : S)
      → Live s
      → IsOk Live (server_write env writer cd s)
  pub marshals : (pod : Pod) → (spec : String) × (env.marshal_spec pod.spec ≡ ok spec)
  pub lists : (key : Key) (s : S) → Live s → IsOk Live (env.list_events key s)
  pub logs :
      (key : Key) (container : String) (previous : Bool) (s : S)
      → Live s
      → Live (env.get_logs key container previous s).1
  pub answers : (fc : FailureContext) (s : S) → Live s → IsOk Live (env.diagnose fc s)
  pub ticks : (s : S) → Live s → Live (env.now s).1
  pub stays_good : (s : S) → Live s → Good s

module _ {S : Type 0} (env : Env S) (Good Live : S → Type 0)
    (cooperates : Cooperates env Good Live) where
  pub patch_diagnosis-Succeeds :
      (writer : Writer) (key : Key) (mutate : Mutation)
      → Succeeds Live (patch_diagnosis env writer key mutate)
  unfolding patch_diagnosis patch_loop attempt_write after_write get_diagnosis
  patch_diagnosis-Succeeds writer key mutate = record {
    ends = λ w g.
        let (cur, r, g1) = cooperates.reads key w.state g in
        let (u, a, g2) = cooperates.accepts writer (mutate cur) _ g1 in
        (tt, rw (r, write-server_write, a) refl, rw (r, write-server_write, a) g2);
  }

  pub clock-Succeeds : Succeeds Live (clock env)
  unfolding clock
  clock-Succeeds = record { ends = λ w g. (_, refl, cooperates.ticks w.state g) }

  pub count_diagnosis-Succeeds :
      (ft : FailureType) (phase : String) → Succeeds Live (count_diagnosis env ft phase)
  unfolding count_diagnosis
  count_diagnosis-Succeeds ft phase = record { ends = λ w g. (tt, refl, g) }

  pub try_logs-Keeps :
      (pod : Pod) (container : String) (previous : Bool)
      → Keeps Live (try_logs env pod container previous)
  unfolding try_logs
  try_logs-Keeps pod container previous =
      Keeps-perform Live (λ _. fetched_logs previous)
        (env.get_logs (pod_key pod) container previous)
        (cooperates.logs (pod_key pod) container previous)

  pub previous_logs-Keeps :
      (pod : Pod) (container : String) (r : Outcome Error String)
      → Keeps Live (previous_logs env pod container r)
  unfolding previous_logs
  previous_logs-Keeps pod container r =
      Keeps-if Live (is_useful r) _ _ (Keeps-lift Live r) (try_logs-Keeps pod container false)

  pub fetch_logs-Keeps :
      (pod : Pod) (container : String) (ft : FailureType)
      → Keeps Live (fetch_logs env pod container ft)
  unfolding fetch_logs
  fetch_logs-Keeps pod container ft =
      Keeps-if Live (want_previous ft) _ _
        (Keeps-bind Live _ _ (Keeps-attempt Live _ (try_logs-Keeps pod container true))
          (previous_logs-Keeps pod container))
        (try_logs-Keeps pod container false)

  pub list_pod_events-Succeeds : (pod : Pod) → Succeeds Live (list_pod_events env pod)
  unfolding list_pod_events
  list_pod_events-Succeeds pod = record {
    ends = λ w g.
        let (events, e, g1) = cooperates.lists (pod_key pod) w.state g in (events, rw e refl, g1);
  }

  pub gather-Succeeds :
      (pod : Pod) (container : String) (ft : FailureType)
      → Succeeds Live (gather env pod container ft)
  unfolding gather
  gather-Succeeds pod container ft =
      let (spec, e) = cooperates.marshals pod in
      Succeeds-bind Live _ _ (Succeeds-lift Live _ spec (rw e refl)) λ spec_yaml.
        Succeeds-bind Live _ _ (list_pod_events-Succeeds pod) λ events.
          Succeeds-bind Live _ _ (Succeeds-attempt Live _ (fetch_logs-Keeps pod container ft))
            λ logs. Succeeds-pure Live (
              failure_context pod container ft spec_yaml
                (summarize_events env.sort_events events max_events) logs)

  pub patch_status-Succeeds :
      (key : Key) (mutate : Mutation) → Succeeds Live (patch_diagnosis_status env key mutate)
  unfolding patch_diagnosis_status
  patch_status-Succeeds = patch_diagnosis-Succeeds status_writer

  pub patch_meta-Succeeds :
      (key : Key) (mutate : Mutation) → Succeeds Live (patch_diagnosis_meta env key mutate)
  unfolding patch_diagnosis_meta
  patch_meta-Succeeds = patch_diagnosis-Succeeds metadata_writer

  pub announce-Succeeds : (ft : FailureType) (key : Key) → Succeeds Live (announce env ft key)
  unfolding announce
  announce-Succeeds ft key = Succeeds-bind Live _ _ (count_diagnosis-Succeeds ft "ready") λ _.
      Succeeds-bind Live _ _ clock-Succeeds λ t.
        Succeeds-bind Live _ _ (patch_meta-Succeeds key (set_last_llm_call (env.format_time t)))
          λ _. Succeeds-pure Live finished
