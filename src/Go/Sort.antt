-- ===== src/Go/Sort.antt =====
-- Go's `sort.Slice`: what its documentation promises of any implementation. It is not stable, so
-- the order of equal items is left open.
pub mod Insertion
pub mod Unique
use mathlib.Core.List.{Perm}
use k8s_health_ai.Prelude.{Bool, true, false, ◌≡◌, List, IsOrdered}

-- `less` is a strict weak order: irreflexive and transitive, and so is being incomparable.
pub record IsStrictWeak {A : Type 0} (less : A → A → Bool) : Type 0 where
  pub irreflexive : (a : A) → less a a ≡ false
  pub transitive : (a b c : A) → less a b ≡ true → less b c ≡ true → less a c ≡ true
  pub negatively : (a b c : A) → less a b ≡ false → less b c ≡ false → less a c ≡ false

pub record SortLaws {A : Type 0} (sort : (A → A → Bool) → List A → List A) : Type 0 where
  pub permutes : (less : A → A → Bool) (items : List A) → Perm (sort less items) items
  pub ordered :
      (less : A → A → Bool)
      → IsStrictWeak less
      → (items : List A) → IsOrdered less (sort less items)
