-- ===== src/Go/Time.antt =====
-- Go's package `time`: the rounding and the print of a duration that is not negative, in
-- nanoseconds.
use Prim.Native.String.{◌∷◌}
use k8s_health_ai.Prelude.{
  ℕ, zero, suc, ◌+◌, ◌-◌, ◌*◌, ◌/◌, ◌%◌, ◌^◌, String, Bool, false, ◌||◌, not, eqb, ltb, ◌<>◌,
  if◌then◌else◌,
}
use k8s_health_ai.Prelude.Int.{int64_half}
use k8s_health_ai.Go.Strconv.{digit, format_nat}

abbrev pub second : ℕ
second = 10 ^ 9

abbrev pub minute : ℕ
minute = 60 * second

-- Round(time.Second): half a second is rounded up, and the largest int64 stands for an overflow
unfoldable pub round_second : ℕ → ℕ
round_second d =
    let r = d % second in
    if ltb (r + r) second
    then d - r
    else if ltb (d + (second - r)) int64_half
    then d + (second - r)
    else int64_half - 1

-- fmtFrac: the last `prec` digits of `v` behind a point and in front of `out`, without the zeros at
-- their end, and the rest of `v`
unfoldable pub fmt_frac : ℕ → ℕ → Bool → String → String × ℕ
unfolding digit
fmt_frac zero v print out = (if print then "." ∷ out else out, v)
fmt_frac (suc prec) v print out =
    let shown = print || not (eqb (v % 10) 0) in
    fmt_frac prec (v / 10) shown (if shown then digit (v % 10) ∷ out else out)

-- the hours, if there are any, in front of `out`
unfoldable pub with_hours : ℕ → String → String
unfolding format_nat
with_hours h out = if eqb h 0 then out else format_nat h <> "h" <> out

-- the minutes, if there are any, and the hours
unfoldable pub with_minutes : ℕ → String → String
unfolding format_nat with_hours
with_minutes v out =
    if eqb v 0 then out else with_hours (v / 60) (format_nat (v % 60) <> "m" <> out)

-- the number in front of the fraction
unfoldable pub whole : String × ℕ → String
unfolding format_nat
whole (out, v) = format_nat v <> out

-- the seconds, and what stands in front of them
unfoldable pub seconds_text : String × ℕ → String
unfolding format_nat with_minutes
seconds_text (out, v) = with_minutes (v / 60) (format_nat (v % 60) <> out)

-- Duration.String
unfoldable pub duration_string : ℕ → String
unfolding fmt_frac whole seconds_text
duration_string u =
    if eqb u 0
    then "0s"
    else if ltb u (10 ^ 3)
    then whole (fmt_frac 0 u false "ns")
    else if ltb u (10 ^ 6)
    then whole (fmt_frac 3 u false "µs")
    else if ltb u second
    then whole (fmt_frac 6 u false "ms")
    else seconds_text (fmt_frac 9 u false "s")
