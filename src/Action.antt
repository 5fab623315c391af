-- ===== src/Action.antt =====
-- Go methods that act on a shared state and may return an error. What was done before the error
-- stays done, so the state comes back beside the error too.
use k8s_health_ai.Prelude.{Outcome, ok, err}
use k8s_health_ai.Go.Errors.{Error}

abbrev pub Action : Type 0 → Type 0 → Type 0
Action S A = S → Outcome Error A × S

module _ {S A : Type 0} where
  abbrev pub pure : A → Action S A
  pure a s = (ok a, s)

  abbrev pub raise : Error → Action S A
  raise e s = (err e, s)

  abbrev pub lift : Outcome Error A → Action S A
  lift r s = (r, s)

  -- `v, err := m()`, where the caller looks at the error itself
  abbrev pub attempt : Action S A → Action S (Outcome Error A)
  attempt m s = let (r, s') = m s in (ok r, s')

  -- an operation that returns no error
  abbrev pub always : (S → A × S) → Action S A
  always f s = let (a, s') = f s in (ok a, s')

module _ {S A B : Type 0} where
  abbrev pub continue : Outcome Error A → (A → Action S B) → Action S B
  continue (ok a) f s = f a s
  continue (err e) f s = (err e, s)

  infixl 5 ◌>>=◌ ◌>>◌
  abbrev pub ◌>>=◌ : Action S A → (A → Action S B) → Action S B
  ◌>>=◌ m f s = let (r, s') = m s in continue r f s'

  abbrev pub ◌>>◌ : Action S A → Action S B → Action S B
  m >> n = m >>= λ _. n
