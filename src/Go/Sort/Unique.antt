-- ===== src/Go/Sort/Unique.antt =====
-- Where items that the order does not tell apart are equal, there is one order of them.
use mathlib.Core.Path.{ap₂}
use mathlib.Core.Logic.Or
use mathlib.Core.List.{Mem, Perm, not-mem-nil, mem-cons, mem-cons_self}
use mathlib.Core.List.Perm
use k8s_health_ai.Prelude.{Bool, false, ◌≡◌, sym, List, [], ◌∷◌, All, IsOrdered}
use k8s_health_ai.Go.Sort.{IsStrictWeak}

module _ {A : Type 0} (less : A → A → Bool) (weak : IsStrictWeak less) where
  -- Items of the list that are not in front of each other are equal.
  abbrev pub TellsApart : List A → Type 0
  TellsApart xs = (a b : A) → Mem a xs → Mem b xs → less a b ≡ false → less b a ≡ false → a ≡ b

  All-mem :
      {P : A → Type 0} (b : A) (xs : List A) → ((x : A) → IsProp (P x)) → All P xs → Mem b xs → P b
  All-mem b [] p h m = absurd (not-mem-nil m)
  All-mem {P} b (x ∷ xs) p (h, hs) m =
      Or.elim (p b) (mem-cons.0 m) (λ e. rw e h) (All-mem b xs p hs)

  not_behind_head :
      (a b : A) (xs : List A) → IsOrdered less (a ∷ xs) → Mem b (a ∷ xs) → less b a ≡ false
  not_behind_head a b xs (h, hs) m =
      Or.elim (hlevel) (mem-cons.0 m) (λ e. rw e (weak.irreflexive a))
        (All-mem {P = λ x. less x a ≡ false} b xs (λ x. hlevel) h)

  -- two orders of the same items agree
  pub IsOrdered-eq_of_perm :
      (xs ys : List A)
      → TellsApart xs
      → IsOrdered less xs
      → IsOrdered less ys
      → Perm xs ys
      → xs ≡ ys
  IsOrdered-eq_of_perm [] ys t ox oy p = Perm.nil-eq p
  IsOrdered-eq_of_perm (a ∷ xs) [] t ox oy p = Perm.eq-nil p
  IsOrdered-eq_of_perm (a ∷ xs) (b ∷ ys) t ox oy p =
      let b_in : Mem b (a ∷ xs) = (Perm.mem_iff p).1 mem-cons_self in
      let heads : a ≡ b =
        t a b mem-cons_self b_in (not_behind_head b a ys oy ((Perm.mem_iff p).0 mem-cons_self))
          (not_behind_head a b xs ox b_in) in
      let tails : Perm xs ys = Perm.cons_inv (rw (sym heads) at p) in
      ap₂ ◌∷◌ heads (
        IsOrdered-eq_of_perm xs ys
          (λ c d m n. t c d (mem-cons.1 (Or.inr m)) (mem-cons.1 (Or.inr n))) ox.1 oy.1 tails)
