-- ===== src/Collect/Gather.antt =====
-- internal/collect/collect.go: `Gather` and `fetchLogs`.
use k8s_health_ai.Prelude.{String, Bool, true, false, Outcome, ok, err, List, ◌<>◌, if◌then◌else◌}
use k8s_health_ai.Go.Errors.{Error, wrapped, message}
use k8s_health_ai.Action.{pure, lift, attempt, ◌>>=◌}
use k8s_health_ai.Kube.{Pod, Key, Event}
use k8s_health_ai.Llm.{FailureContext}
use k8s_health_ai.Detect.{FailureType}
use k8s_health_ai.World.{Env, Run, perform, listed_events, fetched_logs}
use k8s_health_ai.Collect.{
  max_events, max_log_runes, summarize_events, want_previous, is_useful, trim_runes,
}

abbrev pub pod_key : Pod → Key
pod_key pod = record { namespace = pod.namespace; name = pod.name }

-- the text that stands for the logs, fetched or not
unfoldable pub log_text : Outcome Error String → String
log_text (ok s) = s
log_text (err e) = "(logs unavailable: " <> message e <> ")"

-- the fields of the failure context, in the order of the source
unfoldable pub failure_context :
    Pod → String → FailureType → String → List String → Outcome Error String → FailureContext
failure_context pod container ft spec_yaml ev_lines logs = record {
  namespace = pod.namespace;
  pod = pod.name;
  container = container;
  failure_type = ft;
  pod_spec_yaml = spec_yaml;
  events = ev_lines;
  logs_tail = trim_runes (log_text logs) max_log_runes;
}

-- a wrapped error of another call
abbrev wrap_error : {A : Type 0} → String → Outcome Error A → Outcome Error A
wrap_error prefix (ok a) = ok a
wrap_error prefix (err e) = err (wrapped prefix e)

module _ {S : Type 0} (env : Env S) where
  -- `try` of fetchLogs
  unfoldable pub try_logs : Pod → String → Bool → Run S String
  try_logs pod container previous =
      perform (λ _. fetched_logs previous) (env.get_logs (pod_key pod) container previous)

  -- the previous instance's logs, and this one's where they are of no use
  unfoldable pub previous_logs : Pod → String → Outcome Error String → Run S String
  previous_logs pod container r = if is_useful r then lift r else try_logs pod container false

  unfoldable pub fetch_logs : Pod → String → FailureType → Run S String
  fetch_logs pod container ft =
      if want_previous ft
      then (do r ← attempt (try_logs pod container true); previous_logs pod container r)
      else try_logs pod container false

  unfoldable pub list_pod_events : Pod → Run S (List Event)
  list_pod_events pod w =
      let (r, w') = perform (λ _. listed_events) (env.list_events (pod_key pod)) w in
      (wrap_error "list events" r, w')

  unfoldable pub gather : Pod → String → FailureType → Run S FailureContext
  gather pod container ft = do
    spec_yaml ← lift (wrap_error "marshal pod spec" (env.marshal_spec pod.spec))
    events ← list_pod_events pod
    let ev_lines = summarize_events env.sort_events events max_events
    logs ← attempt (fetch_logs pod container ft)
    pure (failure_context pod container ft spec_yaml ev_lines logs)
