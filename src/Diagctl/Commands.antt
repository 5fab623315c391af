-- ===== src/Diagctl/Commands.antt =====
-- cmd/diagctl/main.go: the commands, and `main` with its exit code.
use k8s_health_ai.Prelude.{
  ℕ, String, ◌||◌, Option, none, some, Outcome, ok, err, List, [], ◌∷◌, ◌==◌, ◌<>◌, if◌then◌else◌,
}
use k8s_health_ai.Go.Errors.{Error, text_error, wrapped, message, is_not_found}
use k8s_health_ai.Go.Flag.{Flags, parse}
use k8s_health_ai.Action.{pure, raise, lift, attempt, ◌>>=◌, ◌>>◌}
use k8s_health_ai.Api.{ClusterDiagnosis, ClusterDiagnosisList}
use k8s_health_ai.Diagctl.Usage.{
  explain_text, global_usage, list_usage, get_usage, delete_usage, explain_usage,
}
use k8s_health_ai.Diagctl.Console.{
  Cluster, Run, print_out, print_err, quietly, ask, listed, deleted,
}
use k8s_health_ai.Diagctl.Listing.{in_front, print_list_text}
use k8s_health_ai.Diagctl.Resolve.{resolve_diagnosis}
use k8s_health_ai.Diagctl.Arguments.{
  global_flags, delete_flags, namespace_of, output_of, is_confirmed, validate_output, is_help,
  asks_help, with_flags, unexpected, with_name,
}

-- fmt.Errorf with %w behind a call
abbrev pub wrap_failure : {A : Type 0} → String → Outcome Error A → Outcome Error A
wrap_failure prefix (ok a) = ok a
wrap_failure prefix (err e) = err (wrapped prefix e)

module _ {S : Type 0} (cluster : Cluster S) where
  unfoldable pub kube_client : Run S (Unit {0})
  kube_client = do
    config ← attempt (quietly cluster.get_config)
    lift (wrap_failure "kubernetes config (in-cluster or kubeconfig)" config)
    client ← attempt (quietly cluster.new_client)
    lift (wrap_failure "controller-runtime client" client)

  -- the options of List: a namespace, or all
  abbrev pub list_scope : String → Option String
  list_scope namespace = if namespace == "" then none else some namespace

  -- the switch on the format
  unfoldable pub print_list : String → ClusterDiagnosisList → Run S (Unit {0})
  unfolding print_list_text
  print_list output list =
      if output == "json"
      then (do encoded ← lift (cluster.encode_list list); print_out encoded)
      else print_list_text cluster list.items

  -- runList behind the tests of its arguments
  unfoldable pub list_all : Flags → Run S (Unit {0})
  list_all fs = do
    kube_client
    let scope = list_scope (namespace_of fs)
    got ← attempt (ask (listed scope) (cluster.list scope))
    list ← lift (wrap_failure "list clusterdiagnoses" got)
    print_list (output_of fs) (record list { items = cluster.sort_items in_front list.items })

  -- the tests of the arguments of `list`
  unfoldable pub no_arguments : Flags → List String → Run S (Unit {0})
  no_arguments fs [] = list_all fs
  no_arguments fs (a ∷ args) =
      if asks_help (a ∷ args) then print_out list_usage else unexpected list_usage (a ∷ args)

  unfoldable pub run_list : List String → Run S (Unit {0})
  run_list args =
      with_flags list_usage (parse cluster.quote global_flags args)
        λ fs rest. do lift (validate_output cluster.quote (output_of fs)); no_arguments fs rest

  unfoldable pub print_diagnosis : String → ClusterDiagnosis → Run S (Unit {0})
  print_diagnosis output cd =
      if output == "json"
      then (do encoded ← lift (cluster.encode cd); print_out encoded)
      else (do out ← lift (wrap_failure "marshal yaml" (cluster.marshal cd)); print_out out)

  -- runGet behind the tests of its arguments
  unfoldable pub get_named : Flags → String → Run S (Unit {0})
  get_named fs name = do
    kube_client
    cd ← resolve_diagnosis cluster (namespace_of fs) name
    print_diagnosis (output_of fs) cd

  unfoldable pub run_get : List String → Run S (Unit {0})
  run_get args = with_flags get_usage (parse cluster.quote global_flags args) λ fs rest. do
    lift (validate_output cluster.quote (output_of fs))
    with_name get_usage rest (get_named fs)

  -- behind the answer of Delete
  unfoldable pub after_delete :
      String → ClusterDiagnosis → Outcome Error (Unit {0}) → Run S (Unit {0})
  after_delete name cd (ok _) = print_out (
      "clusterdiagnosis "
      <> cluster.quote cd.metadata.name
      <> " deleted from namespace "
      <> cluster.quote cd.metadata.namespace
      <> "\n")
  after_delete name cd (err e) =
      if is_not_found e
      then raise (text_error ("clusterdiagnosis " <> cluster.quote name <> " not found"))
      else raise (wrapped "delete" e)

  -- behind the test of --yes
  unfoldable pub delete_resolved : Flags → String → Run S (Unit {0})
  delete_resolved fs name = do
    kube_client
    cd ← resolve_diagnosis cluster (namespace_of fs) name
    answer ← attempt (ask (deleted cd) (cluster.delete cd))
    after_delete name cd answer

  -- runDelete behind the tests of its arguments
  unfoldable pub delete_named : Flags → String → Run S (Unit {0})
  delete_named fs name =
      if is_confirmed fs
      then delete_resolved fs name
      else raise
          (text_error "refusing to delete without --yes; example: diagctl delete NAME -n NS --yes")

  unfoldable pub run_delete : List String → Run S (Unit {0})
  run_delete args = with_flags delete_usage (parse cluster.quote delete_flags args) λ fs rest. do
    lift (validate_output cluster.quote (output_of fs))
    with_name delete_usage rest (delete_named fs)

  unfoldable pub explain_or_refuse : List String → Run S (Unit {0})
  explain_or_refuse [] = print_out explain_text
  explain_or_refuse (a ∷ args) =
      if is_help a then print_out explain_usage else unexpected explain_usage (a ∷ args)

  unfoldable pub run_explain : List String → Run S (Unit {0})
  run_explain args =
      with_flags explain_usage (parse cluster.quote [] args) λ fs rest. explain_or_refuse rest

  -- the exit code of a command, whose error is printed
  unfoldable pub exit_code : Outcome Error (Unit {0}) → Run S ℕ
  exit_code (ok _) = pure 0
  exit_code (err e) = print_err ("diagctl: " <> message e <> "\n") >> pure 1

  unfoldable pub run_command : Run S (Unit {0}) → Run S ℕ
  run_command command = do answer ← attempt command; exit_code answer

  -- the switch on the command
  unfoldable pub dispatch : String → List String → Run S ℕ
  dispatch cmd rest =
      if cmd == "list"
      then run_command (run_list rest)
      else if cmd == "get"
      then run_command (run_get rest)
      else if cmd == "delete"
      then run_command (run_delete rest)
      else if cmd == "explain"
      then run_command (run_explain rest)
      else (print_err ("diagctl: unknown command " <> cluster.quote cmd <> "\n\n" <> global_usage)
          >> pure 1)

  -- main: the exit code
  unfoldable pub main : List String → Run S ℕ
  main [] = print_err global_usage >> pure 1
  main (cmd ∷ rest) =
      if is_help cmd || cmd == "help" then (print_out global_usage >> pure 0) else dispatch cmd rest
