-- ===== src/Remediation.antt =====
-- internal/remediation/remediation.go: the hints for each failure type.
pub mod Hints
use k8s_health_ai.Prelude.{String, List, [], ◌∷◌, ◌==◌, if◌then◌else◌}
use k8s_health_ai.Detect.{
  FailureType, oom_killed, crash_loop_back_off, image_pull_back_off, init_container_error,
  pending_scheduling,
}

abbrev pub oom_killed_hints : List String
oom_killed_hints =
    "Raise memory request/limit or remove the cap so the workload can use more RAM."
    ∷ "Profile peak usage and set requests close to steady state, limits above peaks."
    ∷ "Check for memory leaks or unbounded caches in the application." ∷ []

abbrev pub crash_loop_back_off_hints : List String
crash_loop_back_off_hints =
    "Inspect container logs and the previous instance log for the exit stack trace."
    ∷ "Verify command, args, and env match what the image expects."
    ∷ "Ensure readiness/liveness probes match real startup time." ∷ []

abbrev pub image_pull_back_off_hints : List String
image_pull_back_off_hints =
    "Confirm image name, tag, and registry DNS from a node that can reach the registry."
    ∷ "Check imagePullSecrets and registry credentials for private images."
    ∷ "Validate platform/arch and that the tag exists (no typos)." ∷ []

abbrev pub init_container_error_hints : List String
init_container_error_hints =
    "Read init container logs; fix the failing step before app containers run."
    ∷ "Verify volumes, config maps, and secrets the init script needs are mounted."
    ∷ "Increase init timeout or fix blocking network calls in the init." ∷ []

abbrev pub pending_scheduling_hints : List String
pending_scheduling_hints =
    "Describe the pod for scheduler events (affinity, taints, resources, volumes)."
    ∷ "Relax node affinity or add capacity / new nodes if the cluster is full."
    ∷ "Fix PVC binding or storage class if scheduling waits on volumes." ∷ []

abbrev pub default_hints : List String
default_hints =
    "Describe the pod and recent events for the latest failure reason."
    ∷ "Check container and init logs, then adjust resources, image, or config as indicated." ∷ []

unfoldable pub for_failure : FailureType → List String
for_failure ft =
    if ft == oom_killed
    then oom_killed_hints
    else if ft == crash_loop_back_off
    then crash_loop_back_off_hints
    else if ft == image_pull_back_off
    then image_pull_back_off_hints
    else if ft == init_container_error
    then init_container_error_hints
    else if ft == pending_scheduling
    then pending_scheduling_hints
    else default_hints
