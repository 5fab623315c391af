-- ===== src/Controller/Reconcile/Succeeds.antt =====
-- internal/controller/pod_controller.go: runs that end with no error, from states that satisfy an
-- invariant.
use k8s_health_ai.Prelude.{◌≡◌, refl, Bool, true, false, Outcome, ok, err, if◌then◌else◌}
use k8s_health_ai.Go.Errors.{Error}
use k8s_health_ai.Action.{Action, pure, lift, attempt, continue, ◌>>=◌}
use k8s_health_ai.World.{Call, World, Run, perform}

module _ {S : Type 0} (Good : S → Type 0) where
  -- an answer that is no error, with a good state
  abbrev pub IsOk : {A : Type 0} → Outcome Error A × S → Type 0
  IsOk {A} (r, s) = (a : A) × (r ≡ ok a) × Good s

  -- from a good state, the run ends with no error in a good state
  pub record Succeeds {A : Type 0} (m : Run S A) : Type 0 where
    pub ends : (w : World S) → Good w.state → IsOk ((m w).0, (m w).1.state)

  -- from a good state, the run ends in a good state
  pub record Keeps {A : Type 0} (m : Run S A) : Type 0 where
    pub ends : (w : World S) → Good w.state → Good (m w).1.state

  pub Succeeds-pure : {A : Type 0} (a : A) → Succeeds (pure a)
  Succeeds-pure a = record { ends = λ w g. (a, refl, g) }

  pub Succeeds-lift : {A : Type 0} (r : Outcome Error A) (a : A) → r ≡ ok a → Succeeds (lift r)
  Succeeds-lift r a e = record { ends = λ w g. (a, e, g) }

  pub Succeeds-perform :
      {A : Type 0} (note : Outcome Error A → Call) (m : Action S A)
      → ((s : S) → Good s → IsOk (m s))
      → Succeeds (perform note m)
  Succeeds-perform note m h = record { ends = λ w g. h w.state g }

  pub Keeps-perform :
      {A : Type 0} (note : Outcome Error A → Call) (m : Action S A)
      → ((s : S) → Good s → Good (m s).1)
      → Keeps (perform note m)
  Keeps-perform note m h = record { ends = λ w g. h w.state g }

  pub Keeps-lift : {A : Type 0} (r : Outcome Error A) → Keeps (lift r)
  Keeps-lift r = record { ends = λ w g. g }

  pub Succeeds-attempt : {A : Type 0} (m : Run S A) → Keeps m → Succeeds (attempt m)
  Succeeds-attempt m k = record { ends = λ w g. (_, refl, k.ends w g) }

  pub Keeps-attempt : {A : Type 0} (m : Run S A) → Keeps m → Keeps (attempt m)
  Keeps-attempt m k = record { ends = λ w g. k.ends w g }

  pub Succeeds-if :
      {A : Type 0} (b : Bool) (m n : Run S A)
      → Succeeds m
      → Succeeds n
      → Succeeds (if b then m else n)
  Succeeds-if true m n h k = h
  Succeeds-if false m n h k = k

  pub Keeps-if :
      {A : Type 0} (b : Bool) (m n : Run S A) → Keeps m → Keeps n → Keeps (if b then m else n)
  Keeps-if true m n h k = h
  Keeps-if false m n h k = k

  continue-ends :
      {A B : Type 0} (r : Outcome Error A) (f : A → Run S B) (w : World S)
      → IsOk (r, w.state)
      → ((a : A) → Succeeds (f a))
      → IsOk ((continue r f w).0, (continue r f w).1.state)
  continue-ends (ok a) f w (b, e, g) h = (h a).ends w g
  continue-ends (err e) f w (b, p, g) h = cc

  pub Succeeds-bind :
      {A B : Type 0} (m : Run S A) (f : A → Run S B)
      → Succeeds m
      → ((a : A) → Succeeds (f a))
      → Succeeds (m >>= f)
  Succeeds-bind m f h k = record { ends = λ w g. continue-ends (m w).0 f (m w).1 (h.ends w g) k }

  continue-Keeps :
      {A B : Type 0} (r : Outcome Error A) (f : A → Run S B) (w : World S)
      → Good w.state
      → ((a : A) → Keeps (f a))
      → Good (continue r f w).1.state
  continue-Keeps (ok a) f w g h = (h a).ends w g
  continue-Keeps (err e) f w g h = g

  pub Keeps-bind :
      {A B : Type 0} (m : Run S A) (f : A → Run S B)
      → Keeps m
      → ((a : A) → Keeps (f a))
      → Keeps (m >>= f)
  Keeps-bind m f h k = record { ends = λ w g. continue-Keeps (m w).0 f (m w).1 (h.ends w g) k }
