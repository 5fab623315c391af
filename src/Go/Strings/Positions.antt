-- ===== src/Go/Strings/Positions.antt =====
-- Where a character is first and last found in a text, and the slice between.
use Prim.Native.Char.{Char, code}
use Prim.Native.String.{[], ◌∷◌}
use text.Mathlib.TextLemmas.{nil-append, cons-append}
use text.Mathlib.TextEquality.{codes_equal}
use text.Mathlib.TextPositions.{compare_self}
use k8s_health_ai.Prelude.{
  ℕ, zero, suc, ◌⊎◌, inl, inr, Bool-cases, eqb, ◌+◌, ◌≡◌, refl, ap, String, none, some, ◌<>◌, arith,
}
use k8s_health_ai.Go.Strings.{index, last_index, take_chars, drop_chars, rune_count}
use k8s_health_ai.Go.Strings.Laws.{Lacks}

same_char : (c d : Char) → code c ≡ code d → c ≡ d
same_char c d e = codes_equal c d (rw e (compare_self (code d)))

pub rune_count-append : (s t : String) → rune_count (s <> t) ≡ rune_count s + rune_count t
unfolding rune_count
rune_count-append [] t = rw nil-append (omega arith)
rune_count-append (c ∷ s) t = rw cons-append (omega (arith, rune_count-append s t))

pub index-append :
    (d : Char) (pre s : String) → Lacks d pre → index (pre <> (d ∷ s)) d ≡ some (rune_count pre)
unfolding index rune_count
index-append d [] s h = rw nil-append (ground arith)
index-append d (c ∷ pre) s h = rw cons-append (ground (arith, index-append d pre s h.1))

pub index-Lacks : (d : Char) (s : String) → Lacks d s → index s d ≡ none
unfolding index
index-Lacks d [] h = refl
index-Lacks d (c ∷ s) h = ground (arith, index-Lacks d s h.1)

pub last_index-Lacks : (d : Char) (s : String) → Lacks d s → last_index s d ≡ none
unfolding last_index
last_index-Lacks d [] h = refl
last_index-Lacks d (c ∷ s) h = ground (arith, last_index-Lacks d s h.1)

pub last_index-append :
    (d : Char) (s post : String)
    → Lacks d post
    → last_index (s <> (d ∷ post)) d ≡ some (rune_count s)
unfolding last_index rune_count
last_index-append d [] post h = rw nil-append (ground (arith, last_index-Lacks d post h))
last_index-append d (c ∷ s) post h = rw cons-append (ground (arith, last_index-append d s post h))

pub take_chars-append : (s t : String) → take_chars (rune_count s) (s <> t) ≡ s
unfolding take_chars rune_count
take_chars-append [] t = refl
take_chars-append (c ∷ s) t = rw cons-append (ap (λ r. c ∷ r) (take_chars-append s t))

pub drop_chars-append : (s t : String) → drop_chars (rune_count s) (s <> t) ≡ t
unfolding drop_chars rune_count
drop_chars-append [] t = nil-append t
drop_chars-append (c ∷ s) t = rw cons-append (drop_chars-append s t)

-- A text is its first `n` characters and the others.
pub take-append-drop_chars : (n : ℕ) (s : String) → (take_chars n s <> drop_chars n s) ≡ s
unfolding take_chars drop_chars
take-append-drop_chars zero s = nil-append s
take-append-drop_chars (suc n) [] = refl
take-append-drop_chars (suc n) (c ∷ s) =
    rw cons-append (ap (λ r. c ∷ r) (take-append-drop_chars n s))

-- A text lacks a character, or is cut at its first place.
pub split_first :
    (d : Char) (s : String)
    → Lacks d s ⊎ ((a : String) × (b : String) × (Path String s (a <> (d ∷ b))) × Lacks d a)
split_first d [] = inl tt
split_first d (c ∷ s) = elim (Bool-cases (eqb (code c) (code d))) [
  | inl e ↦ inr ([], s, rw (nil-append, same_char c d (ground (arith, e))) refl, tt)
  | inr e ↦ elim (split_first d s) [
    | inl h ↦ inl (ground (arith, e), h)
    | inr (a, b, same, h) ↦ inr (c ∷ a, b, rw (cons-append, same) refl, (ground (arith, e), h))
  ]
]

-- A text lacks a character, or is cut at its last place.
pub split_last :
    (d : Char) (s : String)
    → Lacks d s ⊎ ((a : String) × (b : String) × (Path String s (a <> (d ∷ b))) × Lacks d b)
split_last d [] = inl tt
split_last d (c ∷ s) = elim (split_last d s) [
  | inr (a, b, same, h) ↦ inr (c ∷ a, b, rw (cons-append, same) refl, h)
  | inl h ↦ elim (Bool-cases (eqb (code c) (code d))) [
    | inl e ↦ inr ([], s, rw (nil-append, same_char c d (ground (arith, e))) refl, h)
    | inr e ↦ inl (ground (arith, e), h)
  ]
]

pub Lacks-append : (d : Char) (s t : String) → Lacks d s → Lacks d t → Lacks d (s <> t)
Lacks-append d [] t h k = rw nil-append k
Lacks-append d (c ∷ s) t h k = rw cons-append (h.0, Lacks-append d s t h.1 k)
