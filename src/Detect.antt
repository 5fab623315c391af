-- ===== src/Detect.antt =====
-- internal/detect/detect.go: which failure a pod has, the fingerprint of a container's state, and
-- the name of the diagnosis. FailureType is a Go string, so it is a text here too.
pub mod Classification
pub mod Ladder
pub mod Priority
pub mod Prints
pub mod Names
pub mod Fingerprints
use Prim.Native.Nat.{suc}
use k8s_health_ai.Prelude.{
  ℕ, ◌≢◌, String, Bool, true, false, ◌&&◌, ◌||◌, not, Option, none, some, List, ◌==◌, eqb, ◌<>◌,
  if◌then◌else◌, first_some,
}
use k8s_health_ai.Prelude.Int.{ℤ, pos, negsuc}
use k8s_health_ai.Go.Strings.{contains, take_chars}
use k8s_health_ai.Go.Strconv.{format_int}
use k8s_health_ai.Kube.{Waiting, Terminated, ContainerStatus, PodCondition, Pod}

abbrev pub FailureType : Type 0
FailureType = String

abbrev pub crash_loop_back_off : FailureType
crash_loop_back_off = "CrashLoopBackOff"

abbrev pub oom_killed : FailureType
oom_killed = "OOMKilled"

abbrev pub image_pull_back_off : FailureType
image_pull_back_off = "ImagePullBackOff"

abbrev pub init_container_error : FailureType
init_container_error = "InitContainerError"

abbrev pub pending_scheduling : FailureType
pending_scheduling = "PendingScheduling"

abbrev is_zero : ℤ → Bool
is_zero (pos n) = eqb n 0
is_zero (negsuc n) = false

-- `t != nil && t.ExitCode != 0`
unfoldable pub exited_with_error : Option Terminated → Bool
exited_with_error none = false
exited_with_error (some t) = not (is_zero t.exit_code)

-- the block under `if w := ics.State.Waiting; w != nil`
unfoldable pub waits_with_error : Option Waiting → Bool
waits_with_error none = false
waits_with_error (some w) =
    if contains w.reason "Error"
    then true
    else (w.reason == "CreateContainerConfigError"
        || w.reason == "ErrImagePull"
        || w.reason == "ImagePullBackOff"
        || w.reason == "InvalidImageName"
        || w.reason == "CrashLoopBackOff")

unfoldable pub init_container_failure : ContainerStatus → Bool
init_container_failure ics =
    if exited_with_error ics.state.terminated then true else waits_with_error ics.state.waiting

-- the first condition of type PodScheduled
unfoldable pub scheduled_condition : List PodCondition → Option PodCondition
scheduled_condition =
    first_some (λ (c : PodCondition). if c.type == "PodScheduled" then some c else none)

unfoldable pub is_unschedulable : Option PodCondition → Bool
is_unschedulable none = false
is_unschedulable (some c) =
    c.status == "False" && (c.reason == "FailedScheduling" || c.reason == "Unschedulable")

-- `w != nil && w.Reason == "CreateContainerConfigError"`
unfoldable pub waits_on_config : Option Waiting → Bool
waits_on_config none = false
waits_on_config (some w) = w.reason == "CreateContainerConfigError"

-- the body of the last two loops: the container's name, if it waits on its configuration
unfoldable pub config_body : ContainerStatus → Option String
config_body cs = if waits_on_config cs.state.waiting then some cs.name else none

-- The result `("", false)` is `none`, and `(name, true)` is `some name`.
unfoldable pub classify_pending_scheduling : Pod → Option String
classify_pending_scheduling pod =
    if not (pod.status.phase == "Pending")
    then none
    else if is_unschedulable (scheduled_condition pod.status.conditions)
    then some ""
    else elim (first_some config_body pod.status.init_container_statuses) [
      | some name ↦ some name
      | none ↦ first_some config_body pod.status.container_statuses
    ]

-- `term != nil && term.Reason == "OOMKilled"`
unfoldable pub is_oom : Option Terminated → Bool
is_oom none = false
is_oom (some t) = t.reason == "OOMKilled"

unfoldable pub oom_body : ContainerStatus → Option String
oom_body cs = if is_oom cs.last_termination_state.terminated then some cs.name else none

unfoldable pub init_body : ContainerStatus → Option String
init_body ics = if init_container_failure ics then some ics.name else none

-- the switch on a waiting container's reason
unfoldable pub waiting_failure : Option Waiting → Option FailureType
waiting_failure none = none
waiting_failure (some w) =
    if w.reason == "ImagePullBackOff" || w.reason == "ErrImagePull"
    then some image_pull_back_off
    else if w.reason == "CrashLoopBackOff"
    then some crash_loop_back_off
    else none

-- the loop over the containers that wait: the failure type and the name to return
unfoldable pub waiting_body : ContainerStatus → Option (FailureType × String)
waiting_body cs = elim (waiting_failure cs.state.waiting) [
  | none ↦ none
  | some ft ↦ some (ft, cs.name)
]

-- the last test of Classify
unfoldable pub classify_pending : Pod → FailureType × String × Bool
classify_pending pod = elim (classify_pending_scheduling pod) [
  | some name ↦ (pending_scheduling, name, true)
  | none ↦ ("", "", false)
]

-- the loop over the containers that wait, and what follows it
unfoldable pub classify_waiting : Pod → FailureType × String × Bool
classify_waiting pod = elim (first_some waiting_body pod.status.container_statuses) [
  | some (ft, name) ↦ (ft, name, true)
  | none ↦ classify_pending pod
]

-- Classify; `none` is the nil pod.
unfoldable pub classify : Option Pod → FailureType × String × Bool
classify none = ("", "", false)
classify (some pod) = elim (first_some oom_body pod.status.container_statuses) [
  | some name ↦ (oom_killed, name, true)
  | none ↦ elim (first_some oom_body pod.status.init_container_statuses) [
    | some name ↦ (oom_killed, name, true)
    | none ↦ elim (first_some init_body pod.status.init_container_statuses) [
      | some name ↦ (init_container_error, name, true)
      | none ↦ classify_waiting pod
    ]
  ]
]

unfoldable pub waiting_part : Option Waiting → String
waiting_part none = ""
waiting_part (some w) = "|W:" <> w.reason <> ":" <> w.message

unfoldable pub terminated_part : Option Terminated → String
unfolding format_int
terminated_part none = ""
terminated_part (some r) = "|T:" <> r.reason <> ":" <> format_int r.exit_code

-- writeContainerFingerprint on an empty builder
unfoldable pub write_container_fingerprint : ContainerStatus → String
unfolding waiting_part terminated_part format_int
write_container_fingerprint cs =
    cs.name
    <> "|"
    <> format_int cs.restart_count
    <> waiting_part cs.state.waiting
    <> terminated_part cs.last_termination_state.terminated

unfoldable pub fingerprint_body : String → ContainerStatus → Option String
unfolding write_container_fingerprint
fingerprint_body container cs =
    if cs.name == container then some (write_container_fingerprint cs) else none

unfoldable pub fingerprint : Pod → String → String
fingerprint pod container =
    elim (first_some (fingerprint_body container) pod.status.container_statuses) [
      | some fp ↦ fp
      | none ↦ elim (first_some (fingerprint_body container) pod.status.init_container_statuses) [
        | some fp ↦ fp
        | none ↦ pod.namespace <> "/" <> pod.name <> "|missing"
      ]
    ]

-- the text that DiagnosisName hashes
unfoldable pub hash_input : String → String → FailureType → String
hash_input namespace pod_name ft = namespace <> "/" <> pod_name <> "/" <> ft

-- `sha256_hex` is the hexadecimal print of the SHA-256 sum.
unfoldable pub diagnosis_name : (String → String) → String → String → FailureType → String
unfolding hash_input take_chars
diagnosis_name sha256_hex namespace pod_name ft =
    "diag-" <> take_chars 8 (sha256_hex (hash_input namespace pod_name ft))
