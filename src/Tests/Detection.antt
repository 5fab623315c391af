-- ===== src/Tests/Detection.antt =====
-- The theorems on detection, hints and names at concrete pods.
use k8s_health_ai.Prelude.{
  ap, arith, String, Bool, true, false, ◌≡◌, ◌≢◌, ◌↔◌, ◌⊎◌, refl, some, ◌<>◌, length,
}
use k8s_health_ai.Kube.{ContainerStatus}
use k8s_health_ai.Detect.{
  pending_scheduling, fingerprint, classify, init_container_failure, write_container_fingerprint,
  waiting_part, terminated_part, hash_input, crash_loop_back_off, oom_killed,
}
use k8s_health_ai.Detect.Prints.{PrintsAs, OfPod, classify-PrintsAs}
use k8s_health_ai.Detect.Priority.{IsPrioritised, classify-IsPrioritised}
use k8s_health_ai.Go.Strings.Laws.{Lacks}
use k8s_health_ai.Detect.Names.{slash, hash_input_inj}
use k8s_health_ai.Remediation.{for_failure}
use k8s_health_ai.Remediation.Hints.{classify_hints}
use k8s_health_ai.Tests.Data.{no_state, waiting_for, status_of, crashing_pod, oom_pod, healthy_pod}

classify_oom_test : classify (some oom_pod) ≡ ("OOMKilled", "app", true)
unfolding classify k8s_health_ai.Prelude.first_some k8s_health_ai.Detect.oom_body
    k8s_health_ai.Detect.is_oom
classify_oom_test = refl

-- what the runs meet
pub classify_crashing : classify (some crashing_pod) ≡ (crash_loop_back_off, "app", true)
unfolding classify k8s_health_ai.Prelude.first_some k8s_health_ai.Detect.oom_body
    k8s_health_ai.Detect.is_oom k8s_health_ai.Detect.classify_waiting
    k8s_health_ai.Detect.waiting_body k8s_health_ai.Detect.waiting_failure
classify_crashing = refl

pub classify_healthy : (classify (some healthy_pod)).2 ≡ false
unfolding classify k8s_health_ai.Prelude.first_some k8s_health_ai.Detect.oom_body
    k8s_health_ai.Detect.is_oom k8s_health_ai.Detect.classify_waiting
    k8s_health_ai.Detect.waiting_body k8s_health_ai.Detect.waiting_failure
    k8s_health_ai.Detect.classify_pending k8s_health_ai.Detect.classify_pending_scheduling
classify_healthy = refl

classify-IsPrioritised_example : IsPrioritised oom_pod (classify (some oom_pod))
classify-IsPrioritised_example = classify-IsPrioritised oom_pod

abbrev namespace : String
namespace = "shop"

abbrev pod_name : String
pod_name = "web"

namespace-Lacks : Lacks slash namespace
namespace-Lacks = (ground arith)

pod_name-Lacks : Lacks slash pod_name
pod_name-Lacks = (ground arith)

hash_input_inj_example : (namespace ≡ namespace) × (pod_name ≡ pod_name) × (oom_killed ≡ oom_killed)
hash_input_inj_example =
    hash_input_inj namespace namespace pod_name pod_name oom_killed oom_killed namespace-Lacks
      namespace-Lacks pod_name-Lacks pod_name-Lacks refl

-- two states that differ in a field that no fingerprint shows
abbrev settled : ContainerStatus
settled = status_of "app" (waiting_for "CrashLoopBackOff") no_state

abbrev looping : ContainerStatus
looping = status_of "app" (waiting_for "CrashLoopBackOff") (waiting_for "ContainerCreating")

classify_hints_example :
    (length (for_failure (classify (some oom_pod)).0) ≡ 3)
    × (for_failure (classify (some oom_pod)).0 ≡ for_failure (classify (some crashing_pod)).0
        → (classify (some oom_pod)).0 ≡ (classify (some crashing_pod)).0)
classify_hints_example =
    classify_hints oom_pod crashing_pod (ap (λ c. c.2) classify_oom_test)
      (ap (λ c. c.2) classify_crashing)

flagged_crashing : (classify (some crashing_pod)).2 ≡ true
flagged_crashing = ap (λ x. x.2) classify_crashing

classify-PrintsAs_example :
    (((classify (some crashing_pod)).0 ≡ pending_scheduling)
      × ((classify (some crashing_pod)).1 ≡ ""))
    ⊎ OfPod
        (PrintsAs
          (classify (some crashing_pod)).1
          (fingerprint crashing_pod (classify (some crashing_pod)).1))
        crashing_pod
classify-PrintsAs_example = classify-PrintsAs crashing_pod flagged_crashing
