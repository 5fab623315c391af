-- ===== src/Go/Strings/Laws.antt =====
-- Laws of the text functions that more than one component uses.
use Prim.Native.Char.{Char, code}
use Prim.Native.String.{[], ◌∷◌}
use text.Mathlib.TextLemmas.{
  nil≢cons, nil-append, cons-append, head-eq_of_cons-eq, tail-eq_of_cons-eq,
}
use mathlib.Core.Path.{ap₂}
use k8s_health_ai.Prelude.{ℕ, zero, suc, ◌≤◌, String, ◌≡◌, refl, ap, sym, ◌∙◌, arith, ◌≢◌, ◌<>◌}
use k8s_health_ai.Go.Strings.{take_chars, rune_count}

-- A prefix of `n` characters has `n` of them, where the text is that long.
pub rune_count-take_chars :
    (n : ℕ) (s : String) → n ≤ rune_count s → rune_count (take_chars n s) ≡ n
unfolding rune_count take_chars
rune_count-take_chars zero s h = refl
rune_count-take_chars (suc n) [] h = absurd (omega arith)
rune_count-take_chars (suc n) (c ∷ s) h = ap suc (rune_count-take_chars n s (omega arith))

-- Every character has the property.
abbrev pub AllChars : (ℕ → Type 0) → String → Type 0
AllChars P [] = Unit
AllChars P (c ∷ s) = P (code c) × AllChars P s

pub AllChars-map :
    {P Q : ℕ → Type 0} (s : String) → ((c : ℕ) → P c → Q c) → AllChars P s → AllChars Q s
AllChars-map [] f h = tt
AllChars-map (c ∷ s) f (p, h) = (f (code c) p, AllChars-map s f h)

-- No character of the text is `d`.
abbrev pub Lacks : Char → String → Type 0
Lacks d = AllChars (λ c. c ≢ code d)

-- The text is empty or begins with `d`.
abbrev pub OpensWith : Char → String → Type 0
OpensWith d [] = Unit
OpensWith d (c ∷ s) = code c ≡ code d

clash : (d c : Char) (r s : String) → OpensWith d r → code c ≢ code d → Path String r (c ∷ s) → ⊥
clash d c [] s o h e = nil≢cons e
clash d c (c' ∷ r) s o h e = h (sym (ap code (head-eq_of_cons-eq e)) ∙ o)

-- Two texts without `d`, each followed by nothing or by `d`, are determined by the whole.
pub cut_inj :
    (d : Char) (a a' r r' : String)
    → Lacks d a
    → Lacks d a'
    → OpensWith d r
    → OpensWith d r'
    → (a <> r) ≡ (a' <> r')
    → (a ≡ a') × (r ≡ r')
cut_inj d [] [] r r' h h' o o' e = (refl, rw (nil-append, nil-append) at e)
cut_inj d [] (c ∷ a') r r' h h' o o' e =
    absurd (clash d c r (a' <> r') o h'.0 (rw (nil-append, cons-append) at e))
cut_inj d (c ∷ a) [] r r' h h' o o' e =
    absurd (clash d c r' (a <> r) o' h.0 (sym (rw (nil-append, cons-append) at e)))
cut_inj d (c ∷ a) (c' ∷ a') r r' h h' o o' e =
    let e' : Path String (c ∷ (a <> r)) (c' ∷ (a' <> r')) = rw (cons-append, cons-append) at e in
    let (same_a, same_r) = cut_inj d a a' r r' h.1 h'.1 o o' (tail-eq_of_cons-eq e') in
    (ap₂ ◌∷◌ (head-eq_of_cons-eq e') same_a, same_r)
