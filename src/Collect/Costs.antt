-- ===== src/Collect/Costs.antt =====
-- internal/collect/collect.go: Gather writes nothing, sleeps never and asks no LLM.
use k8s_health_ai.Prelude.{String, Bool, Outcome}
use k8s_health_ai.Go.Errors.{Error}
use k8s_health_ai.Kube.{Pod}
use k8s_health_ai.Detect.{FailureType}
use k8s_health_ai.World.{Env, listed_events, fetched_logs}
use k8s_health_ai.World.Trace.{Extends-note}
use k8s_health_ai.World.Budget.{IsWithin-call}
use k8s_health_ai.World.Costs.{Costs, Costs-perform, free_rules}
use k8s_health_ai.Collect.Gather.{try_logs, previous_logs, fetch_logs, list_pod_events, gather}
use mathlib.Core.Path.{refl}

module _ {S : Type 0} (env : Env S) where
  Costs-try_logs :
      (pod : Pod) (container : String) (previous : Bool)
      → Costs 0 0 0 (try_logs env pod container previous)
  unfolding try_logs
  Costs-try_logs pod container previous =
      Costs-perform 0 0 0 _ _ λ r calls. IsWithin-call (fetched_logs previous) calls

  Costs-previous_logs :
      (pod : Pod) (container : String) (r : Outcome Error String)
      → Costs 0 0 0 (previous_logs env pod container r)
  unfolding previous_logs
  Costs-previous_logs pod container r = search (free_rules, Costs-try_logs)

  Costs-fetch_logs :
      (pod : Pod) (container : String) (ft : FailureType)
      → Costs 0 0 0 (fetch_logs env pod container ft)
  unfolding fetch_logs
  Costs-fetch_logs pod container ft = search (free_rules, Costs-try_logs, Costs-previous_logs)

  Costs-list_pod_events : (pod : Pod) → Costs 0 0 0 (list_pod_events env pod)
  unfolding list_pod_events
  Costs-list_pod_events pod = record {
    within = λ w. IsWithin-call listed_events w.calls;
    grows = λ w. Extends-note listed_events refl;
  }

  pub Costs-gather :
      (pod : Pod) (container : String) (ft : FailureType)
      → Costs 0 0 0 (gather env pod container ft)
  unfolding gather
  Costs-gather pod container ft = search (free_rules, Costs-list_pod_events, Costs-fetch_logs)
