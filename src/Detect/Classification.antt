-- ===== src/Detect/Classification.antt =====
-- internal/detect/detect.go, `Classify`: which pods get which failure type, and in which priority.
use k8s_health_ai.Prelude.{
  ◌≡◌, ◌≢◌, refl, inl, inr, ◌⊎◌, ◌↔◌, String, true, Option, none, some, arith, eq_iff, Decides,
  Decides-if,
}
use k8s_health_ai.Prelude.Int.{pos}
use k8s_health_ai.Go.Strings.{contains}
use k8s_health_ai.Kube.{Waiting, Terminated, ContainerStatus}
use k8s_health_ai.Detect.{
  is_oom, exited_with_error, waits_with_error, init_container_failure, oom_body, init_body,
  waiting_failure, waiting_body, waits_on_config, config_body, image_pull_back_off,
  crash_loop_back_off,
}

-- The previous run was killed for its memory.
abbrev pub IsOom : Option Terminated → Type 0
IsOom none = ⊥
IsOom (some t) = t.reason ≡ "OOMKilled"

abbrev pub WasOomKilled : ContainerStatus → Type 0
WasOomKilled cs = IsOom cs.last_termination_state.terminated

abbrev pub ExitedWithError : Option Terminated → Type 0
ExitedWithError none = ⊥
ExitedWithError (some t) = t.exit_code ≢ pos 0

-- The reasons for which an init container is stuck, without the one that holds "Error".
abbrev pub IsStuckInit : Option Waiting → Type 0
IsStuckInit none = ⊥
IsStuckInit (some w) =
    (contains w.reason "Error" ≡ true)
    ⊎ (w.reason ≡ "ErrImagePull")
    ⊎ (w.reason ≡ "ImagePullBackOff")
    ⊎ (w.reason ≡ "InvalidImageName")
    ⊎ (w.reason ≡ "CrashLoopBackOff")

abbrev pub FailedInit : ContainerStatus → Type 0
FailedInit cs = ExitedWithError cs.state.terminated ⊎ IsStuckInit cs.state.waiting

abbrev pub LacksImage : Option Waiting → Type 0
LacksImage none = ⊥
LacksImage (some w) = (w.reason ≡ "ImagePullBackOff") ⊎ (w.reason ≡ "ErrImagePull")

abbrev pub IsCrashing : Option Waiting → Type 0
IsCrashing none = ⊥
IsCrashing (some w) = w.reason ≡ "CrashLoopBackOff"

abbrev pub IsStuck : ContainerStatus → Type 0
IsStuck cs = LacksImage cs.state.waiting ⊎ IsCrashing cs.state.waiting

abbrev pub LacksConfig : Option Waiting → Type 0
LacksConfig none = ⊥
LacksConfig (some w) = w.reason ≡ "CreateContainerConfigError"

is_oom_iff : (t : Option Terminated) → (is_oom t ≡ true) ↔ IsOom t
unfolding is_oom
is_oom_iff none = ground arith
is_oom_iff (some t) = eq_iff t.reason "OOMKilled"

exited_with_error_iff : (t : Option Terminated) → (exited_with_error t ≡ true) ↔ ExitedWithError t
unfolding exited_with_error
exited_with_error_iff none = ground arith
exited_with_error_iff (some t) = ground arith

-- "CreateContainerConfigError" holds "Error", so its own case adds nothing.
config_error_holds_error : contains "CreateContainerConfigError" "Error" ≡ true
unfolding contains
config_error_holds_error = refl

waits_with_error_iff : (w : Option Waiting) → (waits_with_error w ≡ true) ↔ IsStuckInit w
unfolding waits_with_error
waits_with_error_iff none = ground arith
waits_with_error_iff (some w) = ground (
  arith,
  eq_iff w.reason "CreateContainerConfigError",
  eq_iff w.reason "ErrImagePull",
  eq_iff w.reason "ImagePullBackOff",
  eq_iff w.reason "InvalidImageName",
  eq_iff w.reason "CrashLoopBackOff",
  config_error_holds_error,
)

-- An init container counts as failed exactly if it has terminated with an exit code other than 0,
-- or waits for a reason that contains "Error" or is ErrImagePull, ImagePullBackOff,
-- InvalidImageName or CrashLoopBackOff.
pub init_container_failure_iff :
    (ics : ContainerStatus) → (init_container_failure ics ≡ true) ↔ FailedInit ics
unfolding init_container_failure
init_container_failure_iff ics =
    ground
      (arith, exited_with_error_iff ics.state.terminated, waits_with_error_iff ics.state.waiting)

waits_on_config_iff : (w : Option Waiting) → (waits_on_config w ≡ true) ↔ LacksConfig w
unfolding waits_on_config
waits_on_config_iff none = ground arith
waits_on_config_iff (some w) = eq_iff w.reason "CreateContainerConfigError"

pub oom_body-Decides : (cs : ContainerStatus) → Decides oom_body WasOomKilled cs
unfolding oom_body
oom_body-Decides = Decides-if _ _ WasOomKilled λ cs. is_oom_iff cs.last_termination_state.terminated

pub init_body-Decides : (cs : ContainerStatus) → Decides init_body FailedInit cs
unfolding init_body
init_body-Decides = Decides-if _ _ FailedInit init_container_failure_iff

pub config_body-Decides :
    (cs : ContainerStatus) → Decides config_body (λ c. LacksConfig c.state.waiting) cs
unfolding config_body
config_body-Decides = Decides-if _ _ _ λ cs. waits_on_config_iff cs.state.waiting

waiting_failure-cases :
    (w : Option Waiting)
    → ((waiting_failure w ≡ some image_pull_back_off) × LacksImage w)
      ⊎ ((waiting_failure w ≡ some crash_loop_back_off) × IsCrashing w)
      ⊎ ((waiting_failure w ≡ none) × ¬ (LacksImage w ⊎ IsCrashing w))
unfolding waiting_failure
waiting_failure-cases none = ground arith
waiting_failure-cases (some w) = ground (
  arith,
  eq_iff w.reason "ImagePullBackOff",
  eq_iff w.reason "ErrImagePull",
  eq_iff w.reason "CrashLoopBackOff",
)

-- The loop over the waiting containers returns at the first that is stuck.
pub waiting_body-Decides : (cs : ContainerStatus) → Decides waiting_body IsStuck cs
unfolding waiting_body
waiting_body-Decides cs = elim (waiting_failure-cases cs.state.waiting) [
  | inl (e, p) ↦ inl ((image_pull_back_off, cs.name), ground (arith, e), inl p)
  | inr r ↦ elim r [
    | inl (e, p) ↦ inl ((crash_loop_back_off, cs.name), ground (arith, e), inr p)
    | inr (e, np) ↦ inr (ground (arith, e), np)
  ]
]

-- Its answer is one of the two failure types.
pub waiting_body-type :
    (cs : ContainerStatus) {ft name : String}
    → waiting_body cs ≡ some (ft, name)
    → ((ft ≡ image_pull_back_off) × LacksImage cs.state.waiting × (name ≡ cs.name))
      ⊎ ((ft ≡ crash_loop_back_off) × IsCrashing cs.state.waiting × (name ≡ cs.name))
unfolding waiting_body
waiting_body-type cs h = ground (arith, waiting_failure-cases cs.state.waiting)
