-- ===== src/Detect/Fingerprints.antt =====
-- internal/detect/detect.go, `Fingerprint`: which changes of a container's state it shows.
use Prim.Native.Char.{Char}
use Prim.Native.String.{◌∷◌}
use text.Mathlib.TextLemmas.{nil-append, cons-append, tail-eq_of_cons-eq, append_cancel_left}
use k8s_health_ai.Prelude.{◌≡◌, refl, String, ◌<>◌, Option, none, some, arith}
use k8s_health_ai.Go.Strings.Laws.{Lacks, OpensWith, cut_inj}
use k8s_health_ai.Go.Strconv.{format_int}
use k8s_health_ai.Go.Strconv.Laws.{Lacks-format_int, format_int_inj}
use k8s_health_ai.Prelude.Int.{ℤ}
use k8s_health_ai.Kube.{Waiting, Terminated, ContainerStatus}
use k8s_health_ai.Detect.{waiting_part, terminated_part, write_container_fingerprint}

abbrev bar : Char
bar = "|"

parts_open :
    (w : Option Waiting) (t : Option Terminated)
    → OpensWith bar (waiting_part w <> terminated_part t)
unfolding waiting_part terminated_part
parts_open none none = tt
parts_open none (some t) = rw (nil-append, cons-append) refl
parts_open (some w) t = rw (cons-append, cons-append) refl

bar-append : (s : String) → ("|" <> s) ≡ bar ∷ s
bar-append s = rw (cons-append, nil-append)

bar_free : (z : ℤ) → Lacks bar (format_int z)
bar_free z = Lacks-format_int bar z (λ h. absurd (omega arith)) (omega arith)

-- Two states of one container with the same fingerprint have the same restart count, and the
-- same text of the waiting and the termination part: a restart always changes the fingerprint.
pub fingerprint-restart_count :
    (a b : ContainerStatus)
    → a.name ≡ b.name
    → write_container_fingerprint a ≡ write_container_fingerprint b
    → (a.restart_count ≡ b.restart_count)
      × ((waiting_part a.state.waiting <> terminated_part a.last_termination_state.terminated)
          ≡ (waiting_part b.state.waiting <> terminated_part b.last_termination_state.terminated))
unfolding write_container_fingerprint
fingerprint-restart_count a b same e =
    let behind_name = append_cancel_left b.name _ _ (rw same at e) in
    let (same_count, same_parts) =
      cut_inj bar _ _ _ _ (bar_free a.restart_count) (bar_free b.restart_count)
        (parts_open a.state.waiting a.last_termination_state.terminated)
        (parts_open b.state.waiting b.last_termination_state.terminated)
        (tail-eq_of_cons-eq (rw (bar-append, bar-append) at behind_name)) in
    (format_int_inj _ _ same_count, same_parts)
