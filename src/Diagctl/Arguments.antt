-- ===== src/Diagctl/Arguments.antt =====
-- cmd/diagctl/main.go: the flags and the arguments that the commands share.
use k8s_health_ai.Prelude.{
  String, Bool, false, ◌||◌, Option, some, Outcome, ok, err, List, [], ◌∷◌, ◌==◌, ◌<>◌,
  if◌then◌else◌,
}
use k8s_health_ai.Go.Errors.{Error, text_error}
use k8s_health_ai.Go.Flag.{Value, text, switch, Flags, Parsed, parsed, help, failed, flag_value}
use k8s_health_ai.Action.{raise, ◌>>◌}
use k8s_health_ai.Diagctl.Console.{Run, print_out, print_err}
use k8s_health_ai.Diagctl.Resolve.{show_list}

-- parseGlobal
abbrev pub global_flags : Flags
global_flags = ("n", text "") ∷ ("o", text "text") ∷ []

-- the flags of `delete`
abbrev pub delete_flags : Flags
delete_flags = ("n", text "") ∷ ("o", text "text") ∷ ("yes", switch false) ∷ []

abbrev text_or_empty : Option Value → String
text_or_empty (some (text s)) = s
text_or_empty _ = ""

-- g.namespace and g.output, behind the parsing
unfoldable pub namespace_of : Flags → String
unfolding flag_value
namespace_of fs = text_or_empty (flag_value "n" fs)

unfoldable pub output_of : Flags → String
unfolding flag_value
output_of fs = text_or_empty (flag_value "o" fs)

abbrev is_on : Option Value → Bool
is_on (some (switch b)) = b
is_on _ = false

-- the flag --yes of `delete`
unfoldable pub is_confirmed : Flags → Bool
unfolding flag_value
is_confirmed fs = is_on (flag_value "yes" fs)

unfoldable pub validate_output : (String → String) → String → Outcome Error (Unit {0})
validate_output quote o =
    if o == "text" || o == "json"
    then ok tt
    else err (text_error ("invalid -o " <> quote o <> " (use text or json)"))

abbrev pub is_help : String → Bool
is_help a = a == "-h" || a == "--help"

-- the loop over the arguments that looks for a call for help
unfoldable pub asks_help : List String → Bool
asks_help [] = false
asks_help (a ∷ args) = is_help a || asks_help args

module _ {S : Type 0} where
  -- what the commands do behind fs.Parse; `rest` goes on with the flags and the arguments
  unfoldable pub with_flags :
      String → Parsed → (Flags → List String → Run S (Unit {0})) → Run S (Unit {0})
  with_flags usage (parsed fs args) rest = rest fs args
  with_flags usage help rest = print_err usage
  with_flags usage (failed msg) rest = print_err (msg <> "\n" <> usage) >> raise (text_error msg)

  unfoldable pub unexpected : String → List String → Run S (Unit {0})
  unexpected usage args =
      print_err ("unexpected arguments: " <> show_list args <> "\n\n" <> usage)
      >> raise (text_error "invalid usage")

  unfoldable pub name_missing : String → Run S (Unit {0})
  name_missing usage = print_err usage >> raise (text_error "NAME is required")

  -- the tests of NAME, and of what stands behind it
  unfoldable pub check_name : String → List String → (String → Run S (Unit {0})) → Run S (Unit {0})
  check_name usage [] rest = name_missing usage
  check_name usage (name ∷ []) rest = if name == "" then name_missing usage else rest name
  check_name usage (name ∷ a ∷ args) rest =
      if name == "" then name_missing usage else unexpected usage (a ∷ args)

  unfoldable pub with_name : String → List String → (String → Run S (Unit {0})) → Run S (Unit {0})
  with_name usage args rest = if asks_help args then print_out usage else check_name usage args rest
