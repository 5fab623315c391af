-- ===== src/Go/Strconv.antt =====
-- Go's package `strconv`: Itoa, FormatInt in base 10 and Atoi.
pub mod Laws
use Prim.Native.Char.{Char, code}
use Prim.Native.String.{[], ◌∷◌}
use k8s_health_ai.Prelude.{
  ℕ, zero, suc, ◌+◌, ◌-◌, ◌*◌, ◌/◌, ◌%◌, String, Bool, ◌&&◌, Option, none, some, eqb, ltb, leb,
  if◌then◌else◌, ◌<>◌,
}
use k8s_health_ai.Prelude.Int.{ℤ, pos, negsuc, int64_half, sub_ℕ}

unfoldable pub digit : ℕ → Char
digit zero = "0"
digit (suc zero) = "1"
digit (suc (suc zero)) = "2"
digit (suc (suc (suc zero))) = "3"
digit (suc (suc (suc (suc zero)))) = "4"
digit (suc (suc (suc (suc (suc zero))))) = "5"
digit (suc (suc (suc (suc (suc (suc zero)))))) = "6"
digit (suc (suc (suc (suc (suc (suc (suc zero))))))) = "7"
digit (suc (suc (suc (suc (suc (suc (suc (suc zero)))))))) = "8"
digit _ = "9"

-- The decimal digits of `n` in front of `out`, with fuel: `n` rounds are more than it has digits.
unfoldable pub digits_from : ℕ → ℕ → String → String
unfolding digit
digits_from zero n out = out
digits_from (suc f) n out =
    let rest = digits_from f (n / 10) (digit (n % 10) ∷ out) in if eqb n 0 then out else rest

unfoldable pub format_nat : ℕ → String
unfolding digits_from
format_nat zero = "0"
format_nat (suc n) = digits_from (suc n) (suc n) ""

unfoldable pub format_int : ℤ → String
unfolding format_nat
format_int (pos n) = format_nat n
format_int (negsuc n) = "-" <> format_nat (suc n)

-- the number that the digits add to `acc`, or `none` for another character
unfoldable pub digits_value : ℕ → String → Option ℕ
digits_value acc [] = some acc
digits_value acc (c ∷ s) =
    let rest = digits_value (acc * 10 + (code c - b'0')) s in
    if leb b'0' (code c) && leb (code c) b'9' then rest else none

-- at least one digit
unfoldable pub unsigned_value : String → Option ℕ
unfolding digits_value
unsigned_value [] = none
unsigned_value (c ∷ s) = digits_value 0 (c ∷ s)

abbrev to_positive : Option ℕ → Option ℤ
to_positive none = none
to_positive (some n) = if ltb n int64_half then some (pos n) else none

abbrev to_negative : Option ℕ → Option ℤ
to_negative none = none
to_negative (some n) = if leb n int64_half then some (sub_ℕ 0 n) else none

-- strconv.Atoi with a 64-bit int; an error is `none`
unfoldable pub atoi : String → Option ℤ
unfolding unsigned_value
atoi [] = none
atoi (c ∷ s) =
    if eqb (code c) b'-'
    then to_negative (unsigned_value s)
    else if eqb (code c) b'+'
    then to_positive (unsigned_value s)
    else to_positive (unsigned_value (c ∷ s))
