-- ===== src/Controller/Reconcile/Observed.antt =====
-- internal/controller/pod_controller.go: Reconcile, which observes the duration of reconcileInner.
use k8s_health_ai.Prelude.{
  ℕ, ◌+◌, ◌-◌, ◌*◌, ◌^◌, ◌≤◌, ◌<◌, false, ◌≡◌, refl, ◌⊎◌, inl, inr, Bool-cases, String, true,
  Outcome, ok, err, List, ◌∷◌, arith,
}
use k8s_health_ai.Prelude.Int.{ℤ, pos, int64_half, is_positive}
use k8s_health_ai.Go.Errors.{Error}
use k8s_health_ai.Go.Strings.{to_lower}
use k8s_health_ai.Kube.{Key}
use k8s_health_ai.Controller.Rate.{since}
use k8s_health_ai.World.{Env, World, Call, observed}
use k8s_health_ai.World.Budget.{IsWithin, IsWithin-call, IsWithin-trans}
use k8s_health_ai.Controller.Reconcile.{
  Result, clock, reconcile_inner, reconcile_label, note_reconcile, reconcile,
}
use k8s_health_ai.Controller.Reconcile.Spending.{reconcile_inner-IsWithin}

-- the run is to be repeated
abbrev pub IsRequeued : Result → Type 0
IsRequeued r = (is_positive r.requeue_after ≡ true) ⊎ (r.requeue ≡ true)

-- The label of a run, by its result.
abbrev pub IsLabel : Outcome Error Result → String → Type 0
IsLabel (err e) label = label ≡ "error"
IsLabel (ok r) label = ((label ≡ "skipped") × IsRequeued r) ⊎ ((label ≡ "success") × ¬ IsRequeued r)

label-IsLabel : (r : Outcome Error Result) → IsLabel r (to_lower (reconcile_label r))
unfolding reconcile_label to_lower
label-IsLabel (err e) = refl
label-IsLabel (ok r) = elim (Bool-cases (is_positive r.requeue_after)) [
  | inl e ↦ rw e (inl (refl, inl refl))
  | inr e ↦ elim (Bool-cases r.requeue) [
    | inl f ↦ rw (e, f) (inl (refl, inr refl))
    | inr f ↦ rw (e, f) (inr (refl, ground arith))
  ]
]

-- The time from `start` to `stop`, as an int64 of nanoseconds: a distance that does not fit is cut to
-- the greatest, and it is not positive where the clock went back.
abbrev pub IsElapsed : ℕ → ℕ → ℤ → Type 0
IsElapsed start stop d =
    ((start ≤ stop) × (stop < start + int64_half) × (d ≡ pos (stop - start)))
    ⊎ ((start + int64_half ≤ stop) × (d ≡ pos (int64_half - 1)))
    ⊎ ((stop < start) × (is_positive d ≡ false))

since-IsElapsed : (start stop : ℕ) → IsElapsed start stop (since stop start)
unfolding since
since-IsElapsed start stop = ground arith

-- Reconcile's answer is that of reconcileInner, and its last call observes the time between a
-- reading of the clock before it and one behind it, under the label "error" for an error, "skipped" for a run to be repeated, and otherwise "success".
pub record Observed {S : Type 0} (env : Env S) (req : Key) (w : World S)
    (answer : Outcome Error Result) (after : List Call) : Type 0 where
  pub start : ℕ
  pub inner : World S
  pub before : env.now w.state ≡ (start, inner.state)
  pub no_calls : inner.calls ≡ w.calls
  pub same : answer ≡ (reconcile_inner env req inner).0
  pub label : String
  pub duration : ℤ
  pub elapsed : IsElapsed start (env.now (reconcile_inner env req inner).1.state).0 duration
  pub noted : after ≡ observed label duration ∷ (reconcile_inner env req inner).1.calls
  pub names : IsLabel answer label

-- Reconcile reads the clock, answers what reconcileInner then answers from the same calls, and its
-- last call observes the time from that reading to the next one behind reconcileInner, as an int64
-- of nanoseconds that saturates, and not positive where the clock went back; it does so under the label "error" for an error, "skipped" for a run to be repeated, and
-- "success" otherwise. Like reconcileInner, it asks the LLM at most once, writes at most 25
-- times, and sleeps no longer than 2.7 seconds in all.
pub reconcile-Observed :
    {S : Type 0} (env : Env S) (req : Key) (w : World S)
    → Observed env req w (reconcile env req w).0 (reconcile env req w).1.calls
      × IsWithin 25 (2700 * 10 ^ 6) 1 w.calls (reconcile env req w).1.calls
unfolding reconcile note_reconcile clock
reconcile-Observed env req w =
    let w1 : World _ = (clock env w).1 in
    let r = (reconcile_inner env req w1).0 in
    let stop = (env.now (reconcile_inner env req w1).1.state).0 in
    (
      record {
        start = (env.now w.state).0;
        inner = w1;
        before = refl;
        no_calls = refl;
        same = refl;
        label = to_lower (reconcile_label r);
        duration = since stop (env.now w.state).0;
        elapsed = since-IsElapsed (env.now w.state).0 stop;
        noted = refl;
        names = label-IsLabel r;
      },
      IsWithin-trans 25 0 (2700 * 10 ^ 6) 0 1 0 w.calls _ _ (reconcile_inner-IsWithin env req w1)
          (IsWithin-call (observed _ _) _) (omega arith) (omega arith) (omega arith),
    )
