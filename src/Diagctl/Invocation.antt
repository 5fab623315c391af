-- ===== src/Diagctl/Invocation.antt =====
-- cmd/diagctl/main.go: where the flags of a command may stand.
use k8s_health_ai.Prelude.{
  String, false, ◌≡◌, ◌≢◌, ◌⊎◌, inl, inr, refl, err, List, [], ◌∷◌, ◌<>◌, eq_iff, eq-cases, arith,
  first_some,
}
use k8s_health_ai.Go.Errors.{text_error}
use k8s_health_ai.Go.Strings.{index}
use k8s_health_ai.Go.Flag.{text, parsed, parse, read_argument, parse_one, set_flag, flag_value}
use k8s_health_ai.Go.Flag.Laws.{IsPlain, parse-plain}
use k8s_health_ai.Diagctl.Console.{Cluster, Console}
use k8s_health_ai.Diagctl.Usage.{get_usage, delete_usage}
use k8s_health_ai.Diagctl.Arguments.{
  global_flags, delete_flags, output_of, validate_output, asks_help, with_flags, with_name,
  check_name, unexpected,
}
use k8s_health_ai.Diagctl.Resolve.{show_list}
use k8s_health_ai.Diagctl.Commands.{run_get, run_delete, get_named}

module _ {S : Type 0} (cluster : Cluster S) where
  -- Where NAME stands in front of anything that asks for no help, as in `get NAME -n NS` and
  -- `delete NAME -n NS --yes`, both commands end with "invalid usage": they print what follows NAME
  -- and their usage, and make no request.
  pub name_first_refused :
      (name a : String) (args : List String) (c : Console S)
      → IsPlain name
      → name ≢ ""
      → asks_help (name ∷ a ∷ args) ≡ false
      → (run_get cluster (name ∷ a ∷ args) c ≡ (
        err (text_error "invalid usage"),
        record c {
          stderr =
              c.stderr <> "unexpected arguments: " <> show_list (a ∷ args) <> "\n\n" <> get_usage;
        },
      ))
        × (run_delete cluster (name ∷ a ∷ args) c ≡ (
          err (text_error "invalid usage"),
          record c {
            stderr =
                c.stderr
                <> "unexpected arguments: "
                <> show_list (a ∷ args)
                <> "\n\n"
                <> delete_usage;
          },
        ))
  unfolding run_get run_delete with_flags with_name check_name unexpected output_of validate_output
      flag_value first_some
  name_first_refused name a args c h k n = (
    rw (parse-plain cluster.quote global_flags name (a ∷ args) h)
        (rw n (ground (arith, eq_iff name ""))),
    rw (parse-plain cluster.quote delete_flags name (a ∷ args) h)
        (rw n (ground (arith, eq_iff name ""))),
  )

  -- a plain argument is no call for help
  plain-asks_help : (name : String) → IsPlain name → asks_help (name ∷ []) ≡ false
  unfolding asks_help read_argument index
  plain-asks_help name h = elim (eq-cases name "-h") [
    | inl (t, e) ↦ absurd (cc (rw e at h))
    | inr (f, n) ↦ elim (eq-cases name "--help") [
      | inl (t, e) ↦ absurd (cc (rw e at h))
      | inr (g, m) ↦ rw (f, g) refl
    ]
  ]

  parse_flags_first :
      (ns o name : String)
      → IsPlain name
      → parse cluster.quote global_flags ("-n" ∷ ns ∷ "-o" ∷ o ∷ name ∷ [])
        ≡ parsed (("n", text ns) ∷ ("o", text o) ∷ []) (name ∷ [])
  unfolding parse parse_one read_argument set_flag flag_value first_some index
  parse_flags_first ns o name h = rw (h, parse) refl

  -- With the flags in front, `get -n NS -o FORMAT NAME` goes on with this namespace, format and name.
  pub flags_first_accepted :
      (ns o name : String) (c : Console S)
      → (o ≡ "text") ⊎ (o ≡ "json")
      → IsPlain name
      → name ≢ ""
      → run_get cluster ("-n" ∷ ns ∷ "-o" ∷ o ∷ name ∷ []) c
        ≡ get_named cluster (("n", text ns) ∷ ("o", text o) ∷ []) name c
  unfolding run_get with_flags with_name check_name output_of validate_output flag_value first_some
  flags_first_accepted ns o name c format h k = rw (parse_flags_first ns o name h) (
      rw (plain-asks_help name h)
        (ground (arith, eq_iff name "", eq_iff o "text", eq_iff o "json", format)))
