-- ===== src/Go/Strings/Trim.antt =====
-- TrimSpace on a text that holds an object in braces, or any core that does not begin or end with
-- a space.
use Prim.Native.Char.{Char, code}
use Prim.Native.String.{[], ◌∷◌}
use text.Mathlib.TextLemmas.{nil-append, cons-append}
use k8s_health_ai.Prelude.{ℕ, ◌≡◌, refl, sym, String, false, ◌<>◌, arith, Bool-cases, inl, inr}
use k8s_health_ai.Go.Strings.{is_space, keep_char, trim_left, trim_right}
use k8s_health_ai.Go.Strings.Laws.{AllChars}

pub trim_left-append :
    (pre s : String) (c : Char)
    → is_space (code c) ≡ false
    → trim_left (pre <> (c ∷ s)) ≡ trim_left pre <> (c ∷ s)
unfolding trim_left
trim_left-append [] s c h = rw nil-append (ground (arith, nil-append (c ∷ s)))
trim_left-append (d ∷ pre) s c h = elim (Bool-cases (is_space (code d))) [
  | inl e ↦ rw cons-append (rw (e, trim_left) (trim_left-append pre s c h))
  | inr e ↦ rw cons-append (rw (e, trim_left) (sym (cons-append _ _ _)))
]

keep_char_some :
    (d : Char) (s t : String) (c : Char) → keep_char d (s <> (c ∷ t)) ≡ d ∷ (s <> (c ∷ t))
unfolding keep_char
keep_char_some d [] t c = rw nil-append refl
keep_char_some d (e ∷ s) t c = rw cons-append refl

keep_char_solid : (c : Char) (s : String) → is_space (code c) ≡ false → keep_char c s ≡ c ∷ s
unfolding keep_char
keep_char_solid c [] h = ground arith
keep_char_solid c (d ∷ s) h = refl

pub trim_right-append :
    (s post : String) (c : Char)
    → is_space (code c) ≡ false
    → trim_right (s <> (c ∷ post)) ≡ s <> (c ∷ trim_right post)
unfolding trim_right
trim_right-append [] post c h = rw (nil-append, nil-append) (keep_char_solid c (trim_right post) h)
trim_right-append (d ∷ s) post c h =
    rw (cons-append, trim_right)
      (rw (trim_right-append s post c h) (rw keep_char_some (sym (cons-append _ _ _))))

pub AllChars-trim_left : (P : ℕ → Type 0) (s : String) → AllChars P s → AllChars P (trim_left s)
unfolding trim_left
AllChars-trim_left P [] h = h
AllChars-trim_left P (c ∷ s) h = ground (arith, AllChars-trim_left P s h.1)

AllChars-keep_char :
    (P : ℕ → Type 0) (c : Char) (s : String)
    → P (code c)
    → AllChars P s
    → AllChars P (keep_char c s)
unfolding keep_char
AllChars-keep_char P c [] p h = elim (Bool-cases (is_space (code c))) [
  | inl e ↦ rw e tt
  | inr e ↦ rw e (p, tt)
]
AllChars-keep_char P c (d ∷ s) p h = (p, h)

pub AllChars-trim_right : (P : ℕ → Type 0) (s : String) → AllChars P s → AllChars P (trim_right s)
unfolding trim_right
AllChars-trim_right P [] h = h
AllChars-trim_right P (c ∷ s) h =
    AllChars-keep_char P c (trim_right s) h.0 (AllChars-trim_right P s h.1)
