-- ===== src/Go/Sort/Insertion.antt =====
-- An insertion sort keeps the promise of `sort.Slice`; Go uses one for up to twelve items.
use mathlib.Core.List.{Perm}
use mathlib.Core.List.Perm
use k8s_health_ai.Prelude.{
  Bool, true, false, ◌≡◌, List, [], ◌∷◌, All, IsOrdered, Bool-cases, inl, inr, if◌then◌else◌,
}
use k8s_health_ai.Go.Sort.{IsStrictWeak, SortLaws}

module _ {A : Type 0} (less : A → A → Bool) where
  -- `x` in front of the first item that it is not behind
  unfoldable pub insert_sorted : A → List A → List A
  insert_sorted x [] = x ∷ []
  insert_sorted x (y ∷ ys) = if less y x then y ∷ insert_sorted x ys else x ∷ y ∷ ys

  unfoldable pub insertion_sort : List A → List A
  unfolding insert_sorted
  insertion_sort [] = []
  insertion_sort (x ∷ xs) = insert_sorted x (insertion_sort xs)

  insert_sorted-perm : (x : A) (ys : List A) → Perm (insert_sorted x ys) (x ∷ ys)
  unfolding insert_sorted
  insert_sorted-perm x [] = Perm.refl _
  insert_sorted-perm x (y ∷ ys) = elim (Bool-cases (less y x)) [
    | inl e ↦ rw e (Perm.trans (Perm.cons y (insert_sorted-perm x ys)) (Perm.swap x y ys))
    | inr e ↦ rw e (Perm.refl _)
  ]

  insertion_sort-perm : (xs : List A) → Perm (insertion_sort xs) xs
  unfolding insertion_sort
  insertion_sort-perm [] = Perm.refl _
  insertion_sort-perm (x ∷ xs) =
      Perm.trans (insert_sorted-perm x (insertion_sort xs)) (Perm.cons x (insertion_sort-perm xs))

  All-insert_sorted :
      (P : A → Type 0) (x : A) (ys : List A) → P x → All P ys → All P (insert_sorted x ys)
  unfolding insert_sorted
  All-insert_sorted P x [] p h = (p, tt)
  All-insert_sorted P x (y ∷ ys) p h = elim (Bool-cases (less y x)) [
    | inl e ↦ rw e (h.0, All-insert_sorted P x ys p h.1)
    | inr e ↦ rw e (p, h)
  ]

  module _ (weak : IsStrictWeak less) where
    not_behind : (x y : A) → less y x ≡ true → less x y ≡ false
    not_behind x y h = elim (Bool-cases (less x y)) [
      | inl e ↦ cc (weak.transitive y x y h e, weak.irreflexive y)
      | inr e ↦ e
    ]

    All-behind :
        (x y : A) (ys : List A)
        → less y x ≡ false
        → All (λ z. less z y ≡ false) ys
        → All (λ z. less z x ≡ false) ys
    All-behind x y [] h k = tt
    All-behind x y (z ∷ ys) h k = (weak.negatively z y x k.0 h, All-behind x y ys h k.1)

    insert_sorted-IsOrdered :
        (x : A) (ys : List A) → IsOrdered less ys → IsOrdered less (insert_sorted x ys)
    unfolding insert_sorted
    insert_sorted-IsOrdered x [] h = (tt, tt)
    insert_sorted-IsOrdered x (y ∷ ys) (hy, h) = elim (Bool-cases (less y x)) [
      | inl e ↦ rw e (
        All-insert_sorted (λ z. less z y ≡ false) x ys (not_behind x y e) hy,
        insert_sorted-IsOrdered x ys h,
      )
      | inr e ↦ rw e ((e, All-behind x y ys e hy), (hy, h))
    ]

    insertion_sort-IsOrdered : (xs : List A) → IsOrdered less (insertion_sort xs)
    unfolding insertion_sort
    insertion_sort-IsOrdered [] = tt
    insertion_sort-IsOrdered (x ∷ xs) =
        insert_sorted-IsOrdered x (insertion_sort xs) (insertion_sort-IsOrdered xs)

pub insertion_sort-SortLaws : {A : Type 0} → SortLaws {A = A} insertion_sort
insertion_sort-SortLaws = record {
  permutes = insertion_sort-perm;
  ordered = insertion_sort-IsOrdered;
}
