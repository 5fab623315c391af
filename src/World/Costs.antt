-- ===== src/World/Costs.antt =====
-- The budget of a run, one rule for each way to build a run.
use k8s_health_ai.Prelude.{
  ℕ, ◌+◌, ◌≤◌, ◌∷◌, refl, List, Outcome, ok, err, Bool, true, false, if◌then◌else◌, arith,
}
use k8s_health_ai.Go.Errors.{Error}
use k8s_health_ai.Action.{Action, pure, raise, lift, attempt, continue, ◌>>=◌}
use k8s_health_ai.World.{Call, World, Run, perform}
use k8s_health_ai.World.Trace.{Extends, Extends-refl, Extends-note, Extends-trans}
use k8s_health_ai.World.Budget.{IsWithin, IsWithin-refl, IsWithin-weaken, IsWithin-trans}

-- From whatever world it starts, the run stays within the budget, and only adds to the trace.
pub record Costs {S A : Type 0} (n p l : ℕ) (m : Run S A) : Type 0 where
  pub within : (w : World S) → IsWithin n p l w.calls (m w).1.calls
  pub grows : (w : World S) → Extends w.calls (m w).1.calls

module _ {S A : Type 0} where
  pub Costs-lift : (r : Outcome Error A) → Costs {S = S} 0 0 0 (lift r)
  Costs-lift r = record { within = λ w. IsWithin-refl w.calls; grows = λ w. Extends-refl w.calls }

  pub Costs-pure : (a : A) → Costs {S = S} 0 0 0 (pure a)
  Costs-pure a = record { within = λ w. IsWithin-refl w.calls; grows = λ w. Extends-refl w.calls }

  pub Costs-raise : (e : Error) → Costs {S = S} {A = A} 0 0 0 (raise e)
  Costs-raise e = record { within = λ w. IsWithin-refl w.calls; grows = λ w. Extends-refl w.calls }

  pub Costs-weaken :
      (n p l : ℕ) {m : Run S A} {n' p' l' : ℕ}
      → Costs n p l m
      → n ≤ n'
      → p ≤ p'
      → l ≤ l'
      → Costs n' p' l' m
  Costs-weaken n p l c le_n le_p le_l = record {
    within = λ w. IsWithin-weaken n p l _ _ (c.within w) le_n le_p le_l;
    grows = c.grows;
  }

  pub Costs-attempt : {n p l : ℕ} {m : Run S A} → Costs n p l m → Costs n p l (attempt m)
  Costs-attempt c = record { within = c.within; grows = c.grows }

  pub Costs-perform :
      (n p l : ℕ) (note : Outcome Error A → Call) (m : Action S A)
      → ((r : Outcome Error A) (calls : List Call) → IsWithin n p l calls (note r ∷ calls))
      → Costs n p l (perform note m)
  Costs-perform n p l note m h = record {
    within = λ w. h (m w.state).0 w.calls;
    grows = λ w. Extends-note (note (m w.state).0) refl;
  }

  pub Costs-if :
      {n p l : ℕ} (b : Bool) (m k : Run S A)
      → Costs n p l m
      → Costs n p l k
      → Costs n p l (if b then m else k)
  Costs-if true m k cm ck = cm
  Costs-if false m k cm ck = ck

module _ {S A B : Type 0} where
  Costs-continue :
      (m q k : ℕ) (r : Outcome Error A) (f : A → Run S B)
      → ((a : A) → Costs m q k (f a))
      → (w : World S) → IsWithin m q k w.calls (continue r f w).1.calls
  Costs-continue m q k (ok a) f h w = (h a).within w
  Costs-continue m q k (err e) f h w =
      IsWithin-weaken 0 0 0 _ _ (IsWithin-refl w.calls) (omega arith) (omega arith) (omega arith)

  grows-continue :
      (m q k : ℕ) (r : Outcome Error A) (f : A → Run S B)
      → ((a : A) → Costs m q k (f a))
      → (w : World S) → Extends w.calls (continue r f w).1.calls
  grows-continue m q k (ok a) f h w = (h a).grows w
  grows-continue m q k (err e) f h w = Extends-refl w.calls

  pub Costs-bind :
      (n m p q l k : ℕ) {t u v : ℕ} {x : Run S A} {f : A → Run S B}
      → Costs n p l x
      → ((a : A) → Costs m q k (f a))
      → n + m ≤ t
      → p + q ≤ u
      → l + k ≤ v
      → Costs t u v (x >>= f)
  Costs-bind n m p q l k {x} {f} cx cf le_t le_u le_v = record {
    within = λ w.
        IsWithin-trans n m p q l k _ _ _ (cx.within w) (Costs-continue m q k (x w).0 f cf (x w).1)
          le_t le_u le_v;
    grows = λ w. Extends-trans (cx.grows w) (grows-continue m q k (x w).0 f cf (x w).1);
  }

  -- A first part that is free.
  pub Costs-free :
      {m q k : ℕ} (x : Run S A) (f : A → Run S B)
      → Costs 0 0 0 x
      → ((a : A) → Costs m q k (f a))
      → Costs m q k (x >>= f)
  Costs-free {m} {q} {k} x f cx cf =
      Costs-bind 0 m 0 q 0 k cx cf (omega arith) (omega arith) (omega arith)

  -- A last part that is free.
  pub Costs-then :
      {n p l : ℕ} (x : Run S A) (f : A → Run S B)
      → Costs n p l x
      → ((a : A) → Costs 0 0 0 (f a))
      → Costs n p l (x >>= f)
  Costs-then {n} {p} {l} x f cx cf =
      Costs-bind n 0 p 0 l 0 cx cf (omega arith) (omega arith) (omega arith)

pub ruleset free_rules = (Costs-lift, Costs-pure, Costs-raise, Costs-attempt, Costs-if, Costs-free)
