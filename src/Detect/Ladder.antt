-- ===== src/Detect/Ladder.antt =====
-- internal/detect/detect.go: the five failure types as the rungs of a ladder of conditions.
use k8s_health_ai.Prelude.{◌≡◌, ◌≢◌, refl, ◌⊎◌, ◌↔◌, String, Bool, true, false, arith, str_ne}
use k8s_health_ai.Detect.{
  FailureType, oom_killed, init_container_error, crash_loop_back_off, image_pull_back_off,
  pending_scheduling,
}

abbrev pub IsKnown : FailureType → Type 0
IsKnown ft =
    (ft ≡ oom_killed)
    ⊎ (ft ≡ init_container_error)
    ⊎ (ft ≡ image_pull_back_off)
    ⊎ (ft ≡ crash_loop_back_off)
    ⊎ (ft ≡ pending_scheduling)

-- Four conditions, and the answer that goes to the first that holds.
pub record IsLadder (O I S P : Type 0) (v : FailureType × String × Bool) : Type 0 where
  pub oom : (v.0 ≡ oom_killed) ↔ O
  pub init : (v.0 ≡ init_container_error) ↔ ((¬ O) × I)
  pub stuck : ((v.0 ≡ image_pull_back_off) ⊎ (v.0 ≡ crash_loop_back_off)) ↔ ((¬ O) × (¬ I) × S)
  pub pending : (v.0 ≡ pending_scheduling) ↔ ((¬ O) × (¬ I) × (¬ S) × P)
  pub known : (v.2 ≡ true) ↔ IsKnown v.0
  pub found : (v.2 ≡ true) ↔ (O ⊎ I ⊎ S ⊎ P)

-- The five types differ from one another and from the empty text.
record Differ : Type 0 where
  pub oom-init : oom_killed ≢ init_container_error
  pub oom-image : oom_killed ≢ image_pull_back_off
  pub oom-crash : oom_killed ≢ crash_loop_back_off
  pub oom-pending : oom_killed ≢ pending_scheduling
  pub init-image : init_container_error ≢ image_pull_back_off
  pub init-crash : init_container_error ≢ crash_loop_back_off
  pub init-pending : init_container_error ≢ pending_scheduling
  pub image-pending : image_pull_back_off ≢ pending_scheduling
  pub crash-pending : crash_loop_back_off ≢ pending_scheduling
  pub none-oom : ◌≢◌ {A = String} "" oom_killed
  pub none-init : ◌≢◌ {A = String} "" init_container_error
  pub none-image : ◌≢◌ {A = String} "" image_pull_back_off
  pub none-crash : ◌≢◌ {A = String} "" crash_loop_back_off
  pub none-pending : ◌≢◌ {A = String} "" pending_scheduling

differ : Differ
differ = record {
  oom-init = str_ne refl;
  oom-image = str_ne refl;
  oom-crash = str_ne refl;
  oom-pending = str_ne refl;
  init-image = str_ne refl;
  init-crash = str_ne refl;
  init-pending = str_ne refl;
  image-pending = str_ne refl;
  crash-pending = str_ne refl;
  none-oom = str_ne refl;
  none-init = str_ne refl;
  none-image = str_ne refl;
  none-crash = str_ne refl;
  none-pending = str_ne refl;
}

module _ {O I S P : Type 0} (name : String) where
  pub IsLadder-oom : O → IsLadder O I S P (oom_killed, name, true)
  IsLadder-oom o = let d = differ in ground arith

  pub IsLadder-init : ¬ O → I → IsLadder O I S P (init_container_error, name, true)
  IsLadder-init no_oom i = let d = differ in ground arith

  pub IsLadder-image : ¬ O → ¬ I → S → IsLadder O I S P (image_pull_back_off, name, true)
  IsLadder-image no_oom no_init s = let d = differ in ground arith

  pub IsLadder-crash : ¬ O → ¬ I → S → IsLadder O I S P (crash_loop_back_off, name, true)
  IsLadder-crash no_oom no_init s = let d = differ in ground arith

  pub IsLadder-pending : ¬ O → ¬ I → ¬ S → P → IsLadder O I S P (pending_scheduling, name, true)
  IsLadder-pending no_oom no_init no_stuck p = let d = differ in ground arith

  pub IsLadder-none : ¬ O → ¬ I → ¬ S → ¬ P → IsLadder O I S P ("", name, false)
  IsLadder-none no_oom no_init no_stuck no_pending = let d = differ in ground arith
