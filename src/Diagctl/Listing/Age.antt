-- ===== src/Diagctl/Listing/Age.antt =====
-- cmd/diagctl/main.go: `ageString`, the age of a diagnosis in words.
use text.Mathlib.TextLemmas.{nil-append, cons-append, append_assoc}
use Prim.Native.String.{[], ◌∷◌}
use Prim.Native.Char.{Char}
use k8s_health_ai.Prelude.{
  ℕ, zero, suc, ◌+◌, ◌*◌, ◌/◌, ◌%◌, ◌<◌, ◌≤◌, ◌≡◌, refl, ◌∙◌, String, Bool, true, false, ◌&&◌, ◌==◌,
  leb, eqb, ◌<>◌, eq-cases, Bool-cases, eq_iff, inl, inr, arith, if◌then◌else◌, ap,
}
use k8s_health_ai.Prelude.Int.{int64_half}
use k8s_health_ai.Go.Strings.{has_suffix, trim_suffix, rune_count}
use k8s_health_ai.Go.Strings.Positions.{rune_count-append}
use k8s_health_ai.Go.Strconv.{format_nat}
use k8s_health_ai.Go.Time.{
  second, minute, round_second, fmt_frac, with_hours, with_minutes, seconds_text, duration_string,
}
use k8s_health_ai.Diagctl.Listing.{age_text}

-- the whole seconds nearest to `d` nanoseconds
abbrev pub nearest_second : ℕ → ℕ
nearest_second d = (d + 500000000) / second

-- What is left of the seconds `s` below a minute: nothing of 0, and no unit, and no last digit,
-- where `s` ends in 0.
abbrev pub seconds_left : ℕ → String
unfolding format_nat
seconds_left s =
    if eqb s 0 then "" else if eqb (s % 10) 0 then format_nat (s / 10) else format_nat s <> "s"

-- the part of ageString that takes the suffix away
abbrev shortened : String → String
unfolding has_suffix trim_suffix
shortened s = if has_suffix s "0s" then trim_suffix s "0s" else s

longer-ne :
    (c : Char) (p b t : String) → rune_count t ≤ rune_count b → ((c ∷ (p <> b)) == t) ≡ false
unfolding rune_count
longer-ne c p b t h = elim (eq-cases (c ∷ (p <> b)) t) [
  | inl (e, q) ↦
      let same : suc (rune_count (p <> b)) ≡ rune_count t = ap (λ u. rune_count u) q in
      absurd (omega (arith, same, h, rune_count-append p b))
  | inr (e, q) ↦ e
]

has_suffix-append :
    (p b t : String) → rune_count t ≤ rune_count b → has_suffix (p <> b) t ≡ has_suffix b t
unfolding has_suffix
has_suffix-append [] b t h = rw nil-append refl
has_suffix-append (c ∷ p) b t h =
    rw (cons-append, has_suffix, longer-ne c p b t h) (has_suffix-append p b t h)

trim_suffix-append :
    (p b t : String) → rune_count t ≤ rune_count b → trim_suffix (p <> b) t ≡ p <> trim_suffix b t
unfolding trim_suffix
trim_suffix-append [] b t h = rw (nil-append, nil-append) refl
trim_suffix-append (c ∷ p) b t h =
    rw (cons-append, cons-append, trim_suffix, longer-ne c p b t h)
      (ap (λ u. c ∷ u) (trim_suffix-append p b t h))

all_below : (ℕ → Bool) → ℕ → Bool
all_below test zero = true
all_below test (suc n) = test n && all_below test n

all_below-true : (test : ℕ → Bool) (n s : ℕ) → all_below test n ≡ true → s < n → test s ≡ true
unfolding all_below
all_below-true test zero s h l = absurd (omega arith)
all_below-true test (suc n) s h l = elim (Bool-cases (eqb s n)) [
  | inl e ↦ (let same : s ≡ n = ground (arith, e) in rw same (ground (arith, h)))
  | inr e ↦ all_below-true test n s (ground (arith, h)) (ground (arith, e, l))
]

abbrev is_shortened : ℕ → Bool
unfolding shortened format_nat seconds_left rune_count
is_shortened s =
    (shortened (format_nat s <> "s") == seconds_left s) && leb 2 (rune_count (format_nat s <> "s"))

all_shortened : all_below is_shortened 60 ≡ true
unfolding all_below is_shortened rune_count format_nat has_suffix trim_suffix
all_shortened = refl

shortened_seconds : (s : ℕ) → s < 60 → shortened (format_nat s <> "s") ≡ seconds_left s
unfolding is_shortened
shortened_seconds s h = ground (
  arith,
  all_below-true is_shortened 60 s all_shortened h,
  eq_iff (shortened (format_nat s <> "s")) (seconds_left s),
)

two_or_more : (s : ℕ) → s < 60 → 2 ≤ rune_count (format_nat s <> "s")
unfolding is_shortened
two_or_more s h = ground (arith, all_below-true is_shortened 60 s all_shortened h)

-- `v` with `k` zeros behind it
abbrev with_zeros : ℕ → ℕ → ℕ
with_zeros zero v = v
with_zeros (suc k) v = 10 * with_zeros k v

fmt_frac_zeros : (k v : ℕ) (out : String) → fmt_frac k (with_zeros k v) false out ≡ (out, v)
unfolding fmt_frac
fmt_frac_zeros zero v out = refl
fmt_frac_zeros (suc k) v out = ground (arith, fmt_frac_zeros k v out)

round_second-nearest :
    (d : ℕ) → d + second ≤ int64_half → round_second d ≡ nearest_second d * second
unfolding round_second
round_second-nearest d h = ground arith

with_hours-append : (h : ℕ) (out : String) → with_hours h out ≡ with_hours h "" <> out
unfolding with_hours
with_hours-append h out = elim (Bool-cases (eqb h 0)) [
  | inl e ↦ rw (e, nil-append) refl
  | inr e ↦ rw (e, append_assoc, append_assoc, nil-append) refl
]

with_minutes-append : (v : ℕ) (out : String) → with_minutes v out ≡ with_minutes v "" <> out
unfolding with_minutes
with_minutes-append v out = elim (Bool-cases (eqb v 0)) [
  | inl e ↦ rw (e, nil-append) refl
  | inr e ↦
      rw
        (
          e,
          with_hours-append (v / 60) (format_nat (v % 60) <> ("m" <> out)),
          with_hours-append (v / 60) (format_nat (v % 60) <> ("m" <> "")),
        )
        (rw (append_assoc, append_assoc, append_assoc, nil-append) refl)
]

duration_string-long :
    (u : ℕ) → second ≤ u → duration_string u ≡ seconds_text (fmt_frac 9 u false "s")
unfolding duration_string
duration_string-long u h = ground arith

seconds_text-append :
    (n : ℕ) → seconds_text ("s", n) ≡ with_minutes (n / 60) "" <> (format_nat (n % 60) <> "s")
unfolding seconds_text
seconds_text-append n = with_minutes-append (n / 60) (format_nat (n % 60) <> "s")

duration_string-seconds :
    (n : ℕ)
    → 60 ≤ n
    → duration_string (n * second) ≡ with_minutes (n / 60) "" <> (format_nat (n % 60) <> "s")
duration_string-seconds n h =
    let zeros : n * second ≡ with_zeros 9 n = omega arith in
    let frac : fmt_frac 9 (n * second) false "s" ≡ ("s", n) =
      ap (λ v. fmt_frac 9 v false "s") zeros ∙ fmt_frac_zeros 9 n "s" in
    duration_string-long (n * second) (omega arith) ∙ ap seconds_text frac ∙ seconds_text-append n

shortened-append : (p b : String) → 2 ≤ rune_count b → shortened (p <> b) ≡ p <> shortened b
unfolding rune_count shortened
shortened-append p b h =
    let t = has_suffix-append p b "0s" h in
    let u = trim_suffix-append p b "0s" h in
    elim (Bool-cases (has_suffix b "0s")) [ inl e ↦ rw (t, e, u) refl | inr e ↦ rw (t, e) refl ]

age_text-long :
    (d : ℕ) → minute ≤ d → age_text d ≡ shortened (duration_string (round_second d)) <> " ago"
unfolding age_text shortened
age_text-long d h =
    let e : leb minute d ≡ true = ground (arith, h) in
    elim (Bool-cases (has_suffix (duration_string (round_second d)) "0s")) [
      | inl f ↦ rw (e, f) refl
      | inr f ↦ rw (e, f) refl
    ]

-- For an age of a minute or more, ageString writes the nearest second's hours and minutes, and
-- behind them nothing where no seconds are left, the seconds with their unit where their last
-- digit is not 0, and otherwise the seconds less their last digit and without a unit.
pub age_text-seconds_left :
    (d : ℕ)
    → minute ≤ d
    → d + second ≤ int64_half
    → age_text d
      ≡ (with_minutes (nearest_second d / 60) "" <> seconds_left (nearest_second d % 60)) <> " ago"
age_text-seconds_left d h l =
    let n = nearest_second d in
    let b = format_nat (n % 60) <> "s" in
    let text : duration_string (round_second d) ≡ with_minutes (n / 60) "" <> b =
      ap duration_string (round_second-nearest d l) ∙ duration_string-seconds n (omega arith) in
    let short : shortened (with_minutes (n / 60) "" <> b)
        ≡ with_minutes (n / 60) "" <> seconds_left (n % 60) =
      shortened-append (with_minutes (n / 60) "") b (two_or_more (n % 60) (omega arith))
      ∙ ap (λ u. with_minutes (n / 60) "" <> u) (shortened_seconds (n % 60) (omega arith)) in
    age_text-long d h ∙ ap (λ u. shortened u <> " ago") text ∙ ap (λ u. u <> " ago") short
