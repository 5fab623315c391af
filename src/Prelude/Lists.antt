-- ===== src/Prelude/Lists.antt =====
-- Lists: the loop that returns at the first hit, membership with its evidence, and measures over
-- the native numbers.
use Prim.Native.Nat.{ℕ, zero, suc, ◌≤◌}
use mathlib.Core.Path.{◌≡◌, refl, ap}
use mathlib.Core.Logic.{◌⊎◌, inl, inr, ◌↔◌}
use mathlib.Core.Bool.{Bool, true, false}
use mathlib.Core.Option.{Option, none, some}
use mathlib.Core.List.{List, [], ◌∷◌, ◌++◌}
use native.Mathlib.Omega.{arith}
use k8s_health_ai.Prelude.Tests.{if◌then◌else◌, Bool-cases, Option-cases}

module _ {ℓ} {A : Type ℓ} where
  abbrev pub length : List A → ℕ
  length [] = 0
  length (x ∷ xs) = suc (length xs)

  abbrev pub take : ℕ → List A → List A
  take zero xs = []
  take (suc n) [] = []
  take (suc n) (x ∷ xs) = x ∷ take n xs

  pub length-take-le : (n : ℕ) (xs : List A) → length (take n xs) ≤ n
  length-take-le zero xs = omega arith
  length-take-le (suc n) [] = omega arith
  length-take-le (suc n) (x ∷ xs) = omega (arith, length-take-le n xs)

  -- the items that pass a test, in order
  abbrev pub select : (A → Bool) → List A → List A
  select p [] = []
  select p (x ∷ xs) = if p x then x ∷ select p xs else select p xs

module _ {ℓ κ} {A : Type ℓ} (P : A → Type κ) where
  abbrev pub All : List A → Type κ
  All [] = Unit
  All (x ∷ xs) = P x × All xs

-- Some item has the property; the item is kept.
abbrev pub Any : {A : Type 0} → (A → Type 0) → List A → Type 0
Any P [] = ⊥
Any P (x ∷ xs) = P x ⊎ Any P xs

module _ {ℓ κ} {A : Type ℓ} {B : Type κ} where
  -- `for _, x := range xs { if … { return b } }`: `f x` is `some b` where the body returns.
  unfoldable pub first_some : (A → Option B) → List A → Option B
  first_some f [] = none
  first_some f (x ∷ xs) = elim (f x) [ some b ↦ some b | none ↦ first_some f xs ]

module _ {A B : Type 0} where
  -- Where such a loop returned: the items before `item` were passed over.
  pub record FirstHit (f : A → Option B) (xs : List A) (b : B) : Type 0 where
    pub before : List A
    pub item : A
    pub after : List A
    pub split : xs ≡ before ++ item ∷ after
    pub passed : All (λ x. f x ≡ none) before
    pub hit : f item ≡ some b

  pub first_some-FirstHit :
      (f : A → Option B) (xs : List A) {b : B} → first_some f xs ≡ some b → FirstHit f xs b
  unfolding first_some
  first_some-FirstHit f [] h = cc
  first_some-FirstHit f (x ∷ xs) {b} h = elim (Option-cases (f x)) [
    | inl miss ↦
        let r = first_some-FirstHit f xs {b = b} (rw (miss, first_some) at h) in
        record {
          before = x ∷ r.before;
          item = r.item;
          after = r.after;
          split = ap (λ l. x ∷ l) r.split;
          passed = (miss, r.passed);
          hit = r.hit;
        }
    | inr (c, found) ↦ record {
      before = [];
      item = x;
      after = xs;
      split = refl;
      passed = tt;
      hit = ground (arith, found);
    }
  ]

  -- The loop runs to its end exactly if every item is passed over.
  pub first_some-none_iff :
      (f : A → Option B) (xs : List A) → (first_some f xs ≡ none) ↔ All (λ x. f x ≡ none) xs
  unfolding first_some
  first_some-none_iff f [] = ground arith
  first_some-none_iff f (x ∷ xs) = grind (arith, first_some-none_iff f xs)

module _ {A B : Type 0} where
  -- The loop's body returns exactly on the items that have the property.
  abbrev pub Decides : (A → Option B) → (A → Type 0) → A → Type 0
  Decides f P x = ((b : B) × (f x ≡ some b) × P x) ⊎ ((f x ≡ none) × ¬ P x)

  abbrev pub Decided : (A → Option B) → (A → Type 0) → List A → Type 0
  Decided f P xs =
      ((b : B) × (first_some f xs ≡ some b) × Any P xs) ⊎ ((first_some f xs ≡ none) × ¬ Any P xs)

  pub first_some-Decided :
      (f : A → Option B) (P : A → Type 0) (d : (x : A) → Decides f P x) (xs : List A)
      → Decided f P xs
  unfolding first_some
  first_some-Decided f P d [] = inr (refl, λ h. h)
  first_some-Decided f P d (x ∷ xs) = elim (d x) [
    | inl (b, e, p) ↦ inl (b, ground (arith, e), inl p)
    | inr (e, np) ↦ elim (first_some-Decided f P d xs) [
      | inl (b, e', q) ↦ inl (b, ground (arith, e, e'), inr q)
      | inr (e', nq) ↦ inr (ground (arith, e, e'), elim [ inl p ↦ np p | inr q ↦ nq q ])
    ]
  ]

  -- A body that tests and returns.
  pub Decides-if :
      (b : A → Bool) (g : A → B) (P : A → Type 0)
      → ((x : A) → (b x ≡ true) ↔ P x)
      → (x : A) → Decides (λ y. if b y then some (g y) else none) P x
  Decides-if b g P h x = elim (Bool-cases (b x)) [
    | inl e ↦ inl (g x, ground (arith, e), (h x).0 e)
    | inr e ↦ inr (ground (arith, e), λ p. cc ((h x).1 p, e))
  ]

module _ {ℓ} {A : Type ℓ} where
  abbrev pub drop : ℕ → List A → List A
  drop zero xs = xs
  drop (suc n) [] = []
  drop (suc n) (x ∷ xs) = drop n xs

  pub take-append-drop : (n : ℕ) (xs : List A) → take n xs ++ drop n xs ≡ xs
  take-append-drop zero xs = refl
  take-append-drop (suc n) [] = refl
  take-append-drop (suc n) (x ∷ xs) = ap (λ l. x ∷ l) (take-append-drop n xs)

  -- the prefix is full, or nothing is left out
  pub full-or-all : (n : ℕ) (xs : List A) → (length (take n xs) ≡ n) ⊎ (drop n xs ≡ [])
  full-or-all zero xs = inl refl
  full-or-all (suc n) [] = inr refl
  full-or-all (suc n) (x ∷ xs) = elim (full-or-all n xs) [ inl e ↦ inl (ap suc e) | inr e ↦ inr e ]

module _ {A : Type 0} where
  pub All-drop : (P : A → Type 0) (n : ℕ) (xs : List A) → All P xs → All P (drop n xs)
  All-drop P zero xs h = h
  All-drop P (suc n) [] h = tt
  All-drop P (suc n) (x ∷ xs) h = All-drop P n xs h.1

  -- No later item belongs in front of an earlier one.
  abbrev pub IsOrdered : (A → A → Bool) → List A → Type 0
  IsOrdered less [] = Unit
  IsOrdered less (x ∷ xs) = All (λ y. less y x ≡ false) xs × IsOrdered less xs

  pub take-ahead-drop :
      (less : A → A → Bool) (n : ℕ) (xs : List A)
      → IsOrdered less xs
      → All (λ k. All (λ d. less d k ≡ false) (drop n xs)) (take n xs)
  take-ahead-drop less zero xs h = tt
  take-ahead-drop less (suc n) [] h = tt
  take-ahead-drop less (suc n) (x ∷ xs) (hx, h) =
      (All-drop (λ d. less d x ≡ false) n xs hx, take-ahead-drop less n xs h)

module _ {ℓ κ μ} {A : Type ℓ} {P : A → Type κ} {Q : A → Type μ} where
  pub All-weaken : (xs : List A) → ((x : A) → P x → Q x) → All P xs → All Q xs
  All-weaken [] f h = tt
  All-weaken (x ∷ xs) f (p, h) = (f x p, All-weaken xs f h)
