-- ===== src/Go/Strconv/Laws.antt =====
-- A decimal print is read back, so it determines the number; its characters are digits.
use Prim.Native.Char.{Char, code}
use Prim.Native.String.{[], ◌∷◌}
use text.Mathlib.TextLemmas.{
  nil≢cons, nil-append, cons-append, tail-eq_of_cons-eq, head-eq_of_cons-eq,
}
use k8s_health_ai.Prelude.{
  ℕ, zero, suc, ◌+◌, ◌-◌, ◌*◌, ◌/◌, ◌%◌, ◌≤◌, ◌<◌, ◌≡◌, ◌≢◌, refl, ap, sym, String, ◌<>◌, arith,
}
use k8s_health_ai.Prelude.Int.{ℤ, pos, negsuc}
use k8s_health_ai.Go.Strings.Laws.{AllChars, AllChars-map, Lacks}
use k8s_health_ai.Go.Strconv.{digit, digits_from, format_nat, format_int}

abbrev pub IsDigit : ℕ → Type 0
IsDigit c = (48 ≤ c) × (c ≤ 57)

digit-code : (d : ℕ) → d < 10 → code (digit d) ≡ d + 48
unfolding digit
digit-code zero h = refl
digit-code (suc zero) h = refl
digit-code (suc (suc zero)) h = refl
digit-code (suc (suc (suc zero))) h = refl
digit-code (suc (suc (suc (suc zero)))) h = refl
digit-code (suc (suc (suc (suc (suc zero))))) h = refl
digit-code (suc (suc (suc (suc (suc (suc zero)))))) h = refl
digit-code (suc (suc (suc (suc (suc (suc (suc zero))))))) h = refl
digit-code (suc (suc (suc (suc (suc (suc (suc (suc zero)))))))) h = refl
digit-code (suc (suc (suc (suc (suc (suc (suc (suc (suc zero))))))))) h = refl
digit-code (suc (suc (suc (suc (suc (suc (suc (suc (suc (suc d)))))))))) h = absurd (omega arith)

-- the number that digits spell behind `n`
value : ℕ → String → ℕ
value n [] = n
value n (c ∷ s) = value (n * 10 + (code c - 48)) s

value-digits_from : (f n : ℕ) (out : String) → n ≤ f → value 0 (digits_from f n out) ≡ value n out
unfolding digits_from value
value-digits_from zero n out h = ground arith
value-digits_from (suc f) n out h =
    ground (arith, value-digits_from f (n / 10) (digit (n % 10) ∷ out), digit-code (n % 10))

AllChars-digits_from :
    (f n : ℕ) (out : String) → AllChars IsDigit out → AllChars IsDigit (digits_from f n out)
unfolding digits_from
AllChars-digits_from zero n out h = h
AllChars-digits_from (suc f) n out h =
    ground (arith, AllChars-digits_from f (n / 10) (digit (n % 10) ∷ out), digit-code (n % 10))

value-format_nat : (n : ℕ) → value 0 (format_nat n) ≡ n
unfolding format_nat value
value-format_nat zero = refl
value-format_nat (suc n) = value-digits_from (suc n) (suc n) "" (omega arith)

pub format_nat-digits : (n : ℕ) → AllChars IsDigit (format_nat n)
unfolding format_nat
format_nat-digits zero = (omega arith, tt)
format_nat-digits (suc n) = AllChars-digits_from (suc n) (suc n) "" tt

pub format_nat_inj : (n m : ℕ) → format_nat n ≡ format_nat m → n ≡ m
format_nat_inj n m e = cc (ap (value 0) e, value-format_nat n, value-format_nat m)

minus_sign : (t : String) → ("-" <> t) ≡ "-" ∷ t
minus_sign t = rw (cons-append, nil-append)

not_minus : (s t : String) → AllChars IsDigit s → (s ≡ ("-" <> t)) → ⊥
not_minus [] t h e = nil≢cons (rw minus_sign at e)
not_minus (c ∷ s) t h e =
    let same : code c ≡ 45 = ap code (head-eq_of_cons-eq (rw minus_sign at e)) in
    absurd (omega arith)

-- Two integers with the same decimal print are equal.
pub format_int_inj : (a b : ℤ) → format_int a ≡ format_int b → a ≡ b
unfolding format_int
format_int_inj (pos n) (pos m) e = ap pos (format_nat_inj n m e)
format_int_inj (pos n) (negsuc m) e = absurd (not_minus _ _ (format_nat-digits n) e)
format_int_inj (negsuc n) (pos m) e = absurd (not_minus _ _ (format_nat-digits m) (sym e))
format_int_inj (negsuc n) (negsuc m) e =
    let same =
      format_nat_inj (suc n) (suc m) (tail-eq_of_cons-eq (rw (minus_sign, minus_sign) at e)) in
    ap negsuc (omega arith)

Lacks-format_nat : (d : Char) (n : ℕ) → ¬ IsDigit (code d) → Lacks d (format_nat n)
Lacks-format_nat d n h =
    AllChars-map {Q = λ c. c ≢ code d} (format_nat n) (λ c p e. h (rw (← e) p))
      (format_nat-digits n)

-- No print of an integer holds a character that is neither a digit nor the minus sign.
pub Lacks-format_int :
    (d : Char) (z : ℤ) → ¬ IsDigit (code d) → code d ≢ 45 → Lacks d (format_int z)
unfolding format_int
Lacks-format_int d (pos n) h m = Lacks-format_nat d n h
Lacks-format_int d (negsuc n) h m = rw minus_sign (λ e. m (sym e), Lacks-format_nat d (suc n) h)
