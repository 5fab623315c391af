-- ===== src/Go/Flag.antt =====
-- Go's package `flag`: FlagSet.Parse with string and Boolean flags.
pub mod Laws
use Prim.Native.Char.{Char, code}
use Prim.Native.String.{[], ◌∷◌}
use mathlib.Core.List
use k8s_health_ai.Prelude.{
  ℕ, String, Bool, true, false, ◌||◌, not, Option, none, some, List, ◌==◌, eqb, leb, ◌<>◌,
  if◌then◌else◌, first_some,
}
use k8s_health_ai.Go.Strings.{rune_count, index, take_chars, drop_chars}

-- the value of a flag: a string, or a Boolean, which needs no argument
pub data Value : Type 0 where
  text : String → Value
  switch : Bool → Value

-- the flags by their names, with their values
abbrev pub Flags : Type 0
Flags = List (String × Value)

-- the flags set and the arguments left; the flag -h or -help that was not declared; an error
pub data Parsed : Type 0 where
  parsed : Flags → List String → Parsed
  help : Parsed
  failed : String → Parsed

unfoldable pub flag_value : String → Flags → Option Value
flag_value name = first_some λ (f : String × Value). if f.0 == name then some f.1 else none

unfoldable pub set_flag : String → Value → Flags → Flags
set_flag name v List.[] = List.[]
set_flag name v (List.◌∷◌ f fs) =
    if f.0 == name then List.◌∷◌ (name, v) fs else List.◌∷◌ f (set_flag name v fs)

-- an argument: no flag, the terminator "--", a flag with bad syntax, or a flag with its value
pub data Argument : Type 0 where
  plain terminator bad_syntax : Argument
  flag : String → Option String → Argument

unfoldable pub opens_with : Char → String → Bool
opens_with d [] = false
opens_with d (c ∷ s) = eqb (code c) (code d)

-- `name=value`; the sign does not stand first
unfoldable pub split_value : String → Argument
split_value s = elim (index s "=") [
  | none ↦ flag s none
  | some i ↦ flag (take_chars i s) (some (drop_chars i (drop_chars 1 s)))
]

-- behind one minus or two
unfoldable pub read_name : String → Argument
unfolding split_value opens_with
read_name s = if s == "" || opens_with "-" s || opens_with "=" s then bad_syntax else split_value s

unfoldable pub read_argument : String → Argument
unfolding read_name
read_argument [] = plain
read_argument (c ∷ []) = plain
read_argument (c ∷ d ∷ s) =
    if not (eqb (code c) b'-')
    then plain
    else if not (eqb (code d) b'-')
    then read_name (d ∷ s)
    else if s == ""
    then terminator
    else read_name s

-- strconv.ParseBool
unfoldable pub parse_bool : String → Option Bool
parse_bool s =
    if s == "1" || s == "t" || s == "T" || s == "TRUE" || s == "true" || s == "True"
    then some true
    else if s == "0" || s == "f" || s == "F" || s == "FALSE" || s == "false" || s == "False"
    then some false
    else none

-- what one round of the loop does with an argument
pub data Step : Type 0 where
  -- end; the argument is left, or dropped
  leave drop : Step
  stop : Parsed → Step
  -- the argument is taken, alone or with the one behind it
  took took_two : Flags → Step

module _ (quote : String → String) where
  -- a flag that is not declared
  unfoldable pub unknown_flag : String → Step
  unknown_flag name =
      if name == "help" || name == "h"
      then stop help
      else stop (failed ("flag provided but not defined: -" <> name))

  -- a Boolean flag with the value behind its sign
  unfoldable pub set_switch : Flags → String → Option String → Step
  unfolding parse_bool
  set_switch fs name none = took (set_flag name (switch true) fs)
  set_switch fs name (some v) = elim (parse_bool v) [
    | some b ↦ took (set_flag name (switch b) fs)
    | none ↦
        stop (failed ("invalid boolean value " <> quote v <> " for -" <> name <> ": parse error"))
  ]

  -- a string flag with the value behind its sign, or else the next argument
  unfoldable pub set_text : Flags → String → Option String → Option String → Step
  set_text fs name (some v) next = took (set_flag name (text v) fs)
  set_text fs name none (some v) = took_two (set_flag name (text v) fs)
  set_text fs name none none = stop (failed ("flag needs an argument: -" <> name))

  unfoldable pub set_value : Flags → String → Option String → Option String → Option Value → Step
  unfolding unknown_flag set_switch set_text
  set_value fs name value next none = unknown_flag name
  set_value fs name value next (some (switch b)) = set_switch fs name value
  set_value fs name value next (some (text s)) = set_text fs name value next

  -- parseOne on an argument, with the one behind it
  unfoldable pub parse_one : Flags → String → Option String → Argument → Step
  unfolding set_value flag_value
  parse_one fs s next plain = leave
  parse_one fs s next terminator = drop
  parse_one fs s next bad_syntax = stop (failed ("bad flag syntax: " <> s))
  parse_one fs s next (flag name value) = set_value fs name value next (flag_value name fs)

  -- Parse: each round takes one argument or two
  unfoldable pub parse : Flags → List String → Parsed
  unfolding read_argument parse_one
  parse fs List.[] = parsed fs List.[]
  parse fs (List.◌∷◌ s List.[]) = elim (parse_one fs s none (read_argument s)) [
    | leave ↦ parsed fs (List.◌∷◌ s List.[])
    | drop ↦ parsed fs List.[]
    | stop p ↦ p
    | took fs' ↦ parsed fs' List.[]
    | took_two fs' ↦ parsed fs' List.[]
  ]
  parse fs (List.◌∷◌ s (List.◌∷◌ t rest)) = elim (parse_one fs s (some t) (read_argument s)) [
    | leave ↦ parsed fs (List.◌∷◌ s (List.◌∷◌ t rest))
    | drop ↦ parsed fs (List.◌∷◌ t rest)
    | stop p ↦ p
    | took fs' ↦ parse fs' (List.◌∷◌ t rest)
    | took_two fs' ↦ parse fs' rest
  ]
