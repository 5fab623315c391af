-- ===== src/Go/Strings/Order.antt =====
-- The order of Go strings is a strict linear order.
use Prim.Native.Char.{code}
use Prim.Native.String.{[], ◌∷◌}
use mathlib.Core.Path.{ap₂}
use text.Mathlib.TextEquality.{codes_equal}
use text.Mathlib.TextPositions.{compare_self}
use k8s_health_ai.Prelude.{◌≡◌, refl, String, true, false, arith}
use k8s_health_ai.Go.Strings.{str_lt}

pub str_lt_irrefl : (s : String) → str_lt s s ≡ false
unfolding str_lt
str_lt_irrefl [] = refl
str_lt_irrefl (c ∷ s) = ground (arith, str_lt_irrefl s)

pub str_lt_trans : (s t u : String) → str_lt s t ≡ true → str_lt t u ≡ true → str_lt s u ≡ true
unfolding str_lt
str_lt_trans [] [] u h k = cc
str_lt_trans [] (d ∷ t) [] h k = cc
str_lt_trans [] (d ∷ t) (e ∷ u) h k = refl
str_lt_trans (c ∷ s) [] u h k = cc
str_lt_trans (c ∷ s) (d ∷ t) [] h k = cc
str_lt_trans (c ∷ s) (d ∷ t) (e ∷ u) h k = ground (arith, str_lt_trans s t u)

pub str_lt_neg : (s t u : String) → str_lt s t ≡ false → str_lt t u ≡ false → str_lt s u ≡ false
unfolding str_lt
str_lt_neg [] [] [] h k = refl
str_lt_neg [] [] (e ∷ u) h k = cc
str_lt_neg [] (d ∷ t) u h k = cc
str_lt_neg (c ∷ s) t [] h k = refl
str_lt_neg (c ∷ s) [] (e ∷ u) h k = cc
str_lt_neg (c ∷ s) (d ∷ t) (e ∷ u) h k = ground (arith, str_lt_neg s t u)

-- Of two texts that differ, one is in front.
pub str_lt_total : (s t : String) → str_lt s t ≡ false → str_lt t s ≡ false → s ≡ t
unfolding str_lt
str_lt_total [] [] h k = refl
str_lt_total [] (d ∷ t) h k = cc
str_lt_total (c ∷ s) [] h k = cc
str_lt_total (c ∷ s) (d ∷ t) h k =
    let same : code c ≡ code d = ground (arith, h, k) in
    let tails : s ≡ t = str_lt_total s t ground (arith, h, k, same) ground (arith, h, k, same) in
    ap₂ ◌∷◌ (codes_equal c d (rw same (compare_self (code d)))) tails
