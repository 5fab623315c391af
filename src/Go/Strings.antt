-- ===== src/Go/Strings.antt =====
-- Go's package `strings`: Contains, TrimSpace, ToLower, TrimSuffix, Index, LastIndex, slicing.
pub mod Laws
pub mod Positions
pub mod Trim
pub mod Order
use Prim.Native.Char.{Char, code}
use Prim.Native.String.{[], ◌∷◌}
use k8s_health_ai.Prelude.{
  ℕ, zero, suc, ◌+◌, ◌-◌, String, Bool, true, false, ◌&&◌, ◌||◌, Option, none, some, ◌==◌, leb, ltb,
  eqb, if◌then◌else◌,
}

unfoldable pub has_prefix : String → String → Bool
has_prefix s [] = true
has_prefix [] (d ∷ t) = false
has_prefix (c ∷ s) (d ∷ t) = eqb (code c) (code d) && has_prefix s t

-- strings.Contains
unfoldable pub contains : String → String → Bool
unfolding has_prefix
contains [] t = has_prefix [] t
contains (c ∷ s) t = has_prefix (c ∷ s) t || contains s t

-- unicode.IsSpace
unfoldable pub is_space : ℕ → Bool
is_space c =
    (leb 9 c && leb c 13)
    || eqb c 32
    || eqb c 0x85
    || eqb c 0xa0
    || eqb c 0x1680
    || (leb 0x2000 c && leb c 0x200a)
    || eqb c 0x2028
    || eqb c 0x2029
    || eqb c 0x202f
    || eqb c 0x205f
    || eqb c 0x3000

unfoldable pub trim_left : String → String
trim_left [] = []
trim_left (c ∷ s) = if is_space (code c) then trim_left s else c ∷ s

-- `c` in front of a text that is trimmed already
unfoldable pub keep_char : Char → String → String
keep_char c [] = if is_space (code c) then [] else c ∷ []
keep_char c (d ∷ s) = c ∷ d ∷ s

unfoldable pub trim_right : String → String
trim_right [] = []
trim_right (c ∷ s) = keep_char c (trim_right s)

-- strings.TrimSpace
unfoldable pub trim_space : String → String
unfolding trim_left trim_right
trim_space s = trim_right (trim_left s)

-- unicode.ToLower on every character whose lower case is ASCII: the letters A to Z, the capital I
-- with a dot above (U+0130) and the Kelvin sign (U+212A). Other characters are left as they are,
-- which no comparison with an ASCII text can tell apart from Go's answer.
unfoldable pub lower_char : Char → Char
lower_char c =
    let k = code c in
    if eqb k b'A'
    then "a"
    else if eqb k b'B'
    then "b"
    else if eqb k b'C'
    then "c"
    else if eqb k b'D'
    then "d"
    else if eqb k b'E'
    then "e"
    else if eqb k b'F'
    then "f"
    else if eqb k b'G'
    then "g"
    else if eqb k b'H'
    then "h"
    else if eqb k b'I'
    then "i"
    else if eqb k b'J'
    then "j"
    else if eqb k b'K'
    then "k"
    else if eqb k b'L'
    then "l"
    else if eqb k b'M'
    then "m"
    else if eqb k b'N'
    then "n"
    else if eqb k b'O'
    then "o"
    else if eqb k b'P'
    then "p"
    else if eqb k b'Q'
    then "q"
    else if eqb k b'R'
    then "r"
    else if eqb k b'S'
    then "s"
    else if eqb k b'T'
    then "t"
    else if eqb k b'U'
    then "u"
    else if eqb k b'V'
    then "v"
    else if eqb k b'W'
    then "w"
    else if eqb k b'X'
    then "x"
    else if eqb k b'Y'
    then "y"
    else if eqb k b'Z'
    then "z"
    else if eqb k 0x130
    then "i"
    else if eqb k 0x212a
    then "k"
    else c

-- strings.ToLower
unfoldable pub to_lower : String → String
unfolding lower_char
to_lower [] = []
to_lower (c ∷ s) = lower_char c ∷ to_lower s

-- strings.TrimSuffix
unfoldable pub trim_suffix : String → String → String
trim_suffix [] t = []
trim_suffix (c ∷ s) t = if (c ∷ s) == t then [] else c ∷ trim_suffix s t

-- strings.Index of a text of one character; positions count characters
unfoldable pub index : String → Char → Option ℕ
index [] d = none
index (c ∷ s) d =
    if eqb (code c) (code d)
    then some 0
    else elim (index s d) [ none ↦ none | some i ↦ some (suc i) ]

-- strings.LastIndex of a text of one character
unfoldable pub last_index : String → Char → Option ℕ
last_index [] d = none
last_index (c ∷ s) d = elim (last_index s d) [
  | some i ↦ some (suc i)
  | none ↦ if eqb (code c) (code d) then some 0 else none
]

unfoldable pub take_chars : ℕ → String → String
take_chars zero s = []
take_chars (suc n) [] = []
take_chars (suc n) (c ∷ s) = c ∷ take_chars n s

unfoldable pub drop_chars : ℕ → String → String
drop_chars zero s = s
drop_chars (suc n) [] = []
drop_chars (suc n) (c ∷ s) = drop_chars n s

-- `s[i:j]`, and `string([]rune(s)[i:j])`
unfoldable pub slice : String → ℕ → ℕ → String
unfolding take_chars drop_chars
slice s i j = take_chars (j - i) (drop_chars i s)

-- `len([]rune(s))`
unfoldable pub rune_count : String → ℕ
rune_count [] = 0
rune_count (c ∷ s) = suc (rune_count s)

-- strings.HasSuffix
unfoldable pub has_suffix : String → String → Bool
has_suffix [] t = t == ""
has_suffix (c ∷ s) t = (c ∷ s) == t || has_suffix s t

-- `s < t` on Go strings: the order of the bytes is the order of the characters
unfoldable pub str_lt : String → String → Bool
str_lt [] [] = false
str_lt [] (d ∷ t) = true
str_lt (c ∷ s) [] = false
str_lt (c ∷ s) (d ∷ t) =
    let rest = str_lt s t in
    if ltb (code c) (code d) then true else if ltb (code d) (code c) then false else rest
