-- ===== src/Tests/Cli.antt =====
-- The theorems on the command line at a cluster with two diagnoses.
use k8s_health_ai.Prelude.{
  ℕ, ◌+◌, ◌*◌, ◌/◌, ◌%◌, ◌^◌, ◌≡◌, ◌≢◌, ◌⊎◌, ◌↔◌, ◌<>◌, Bool, refl, ap, sym, ◌∙◌, inl, inr, String,
  none, some, Outcome, ok, err, List, [], ◌∷◌, arith, str_ne,
}
use k8s_health_ai.Go.Errors.{text_error}
use k8s_health_ai.Go.Sort.Insertion.{insertion_sort}
use k8s_health_ai.Api.{ClusterDiagnosis, ClusterDiagnosisList, empty_status}
use k8s_health_ai.Diagctl.Console.{Cluster, Console}
use k8s_health_ai.Diagctl.Resolve.{show_list, resolve_diagnosis}
use k8s_health_ai.Diagctl.Resolve.Unique.{IsOnly, resolve_diagnosis-IsOnly}
use k8s_health_ai.Diagctl.Usage.{get_usage, delete_usage}
use k8s_health_ai.Diagctl.Commands.{run_list, run_get, run_explain, run_delete, main}
use k8s_health_ai.Diagctl.Deletes.{deleted_by, readers_delete_nothing}
use k8s_health_ai.Diagctl.Deletes.Confirmed.{Confirmed, run_delete-Confirmed}
use k8s_health_ai.Diagctl.Exits.{Exits, Reason, main-Exits}
use k8s_health_ai.Diagctl.Invocation.{name_first_refused}

abbrev diagnosis : String → String → ClusterDiagnosis
diagnosis namespace name = record {
  metadata = record {
    name = name;
    namespace = namespace;
    annotations = none;
    owner_references = [];
    resource_version = "1";
    creation_timestamp = some 0;
  };
  spec = record {
    target_ref = record { kind = "Pod"; namespace = namespace; name = name };
    failure_type = "OOMKilled";
    collected_at = none;
  };
  status = empty_status;
}

abbrev pub web : ClusterDiagnosis
web = diagnosis "shop" "web"

abbrev pub queue : ClusterDiagnosis
queue = diagnosis "jobs" "queue"

abbrev pub both : List ClusterDiagnosis
both = web ∷ queue ∷ []

abbrev pub listing : ClusterDiagnosisList
listing = record { metadata = record { resource_version = "7"; continue_token = "" }; items = both }

-- the state is the time
abbrev pub cluster : Cluster ℕ
cluster = record {
  get_config = λ s. (ok tt, s);
  new_client = λ s. (ok tt, s);
  list = λ scope s. (ok listing, s);
  get = λ key s. (ok web, s);
  delete = λ cd s. (ok tt, s);
  now = λ s. (s, s + 1);
  encode_list = λ list. ok "{}";
  encode = λ cd. ok "{}";
  marshal = λ cd. ok "kind: ClusterDiagnosis";
  sort_items = insertion_sort;
  quote = λ s. s;
}

abbrev pub console : Console ℕ
console = record { state = 90 * 10 ^ 9; stdout = ""; stderr = ""; requests = [] }

run_delete-Confirmed_example :
    (deleted_by (run_delete cluster ("--yes" ∷ "web" ∷ []) console).1 ≡ [])
    ⊎ Confirmed cluster
        ("--yes" ∷ "web" ∷ [])
        console
        (run_delete cluster ("--yes" ∷ "web" ∷ []) console).1
run_delete-Confirmed_example = run_delete-Confirmed cluster ("--yes" ∷ "web" ∷ []) console

readers_delete_nothing_example :
    (deleted_by (run_list cluster ("web" ∷ []) console).1 ≡ [])
    × (deleted_by (run_get cluster ("web" ∷ []) console).1 ≡ [])
    × (deleted_by (run_explain cluster ("web" ∷ []) console).1 ≡ [])
readers_delete_nothing_example = readers_delete_nothing cluster ("web" ∷ []) console

delete_web : deleted_by (run_delete cluster ("--yes" ∷ "web" ∷ []) console).1 ≡ web ∷ []
unfolding run_delete k8s_health_ai.Diagctl.Arguments.with_flags k8s_health_ai.Go.Flag.parse
    k8s_health_ai.Diagctl.Arguments.validate_output k8s_health_ai.Diagctl.Arguments.output_of
    k8s_health_ai.Prelude.first_some k8s_health_ai.Diagctl.Arguments.with_name
    k8s_health_ai.Diagctl.Arguments.asks_help k8s_health_ai.Diagctl.Arguments.check_name
    k8s_health_ai.Diagctl.Commands.delete_named k8s_health_ai.Diagctl.Arguments.is_confirmed
    k8s_health_ai.Go.Flag.parse_one k8s_health_ai.Go.Flag.read_argument
    k8s_health_ai.Go.Flag.set_value k8s_health_ai.Go.Flag.set_switch k8s_health_ai.Go.Flag.set_flag
    k8s_health_ai.Go.Flag.flag_value k8s_health_ai.Go.Strings.index
    k8s_health_ai.Diagctl.Arguments.namespace_of k8s_health_ai.Diagctl.Commands.delete_resolved
    k8s_health_ai.Diagctl.Commands.kube_client resolve_diagnosis
    k8s_health_ai.Diagctl.Resolve.resolve_anywhere k8s_health_ai.Diagctl.Resolve.single_match
    k8s_health_ai.Diagctl.Commands.after_delete
delete_web = refl

delete_unconfirmed : deleted_by (run_delete cluster ("web" ∷ []) console).1 ≡ []
unfolding run_delete k8s_health_ai.Diagctl.Arguments.with_flags k8s_health_ai.Go.Flag.parse
    k8s_health_ai.Diagctl.Arguments.validate_output k8s_health_ai.Diagctl.Arguments.output_of
    k8s_health_ai.Prelude.first_some k8s_health_ai.Diagctl.Arguments.with_name
    k8s_health_ai.Diagctl.Arguments.asks_help k8s_health_ai.Diagctl.Arguments.check_name
    k8s_health_ai.Diagctl.Commands.delete_named k8s_health_ai.Diagctl.Arguments.is_confirmed
delete_unconfirmed = refl

resolve_diagnosis-IsOnly_example :
    ((resolve_diagnosis cluster "" "web" console).0 ≡ ok web) ↔ IsOnly "web" web both
resolve_diagnosis-IsOnly_example = resolve_diagnosis-IsOnly cluster "web" web listing console refl

name_first_refused_example :
    (run_get cluster ("web" ∷ "-n" ∷ "shop" ∷ []) console ≡ (
      err (text_error "invalid usage"),
      record console {
        stderr = "unexpected arguments: " <> show_list ("-n" ∷ "shop" ∷ []) <> "\n\n" <> get_usage;
      },
    ))
    × (run_delete cluster ("web" ∷ "-n" ∷ "shop" ∷ []) console ≡ (
      err (text_error "invalid usage"),
      record console {
        stderr =
            "unexpected arguments: " <> show_list ("-n" ∷ "shop" ∷ []) <> "\n\n" <> delete_usage;
      },
    ))
unfolding k8s_health_ai.Go.Flag.read_argument k8s_health_ai.Diagctl.Arguments.asks_help get_usage
    delete_usage k8s_health_ai.Diagctl.Resolve.join_blank
name_first_refused_example =
    name_first_refused cluster "web" "-n" ("shop" ∷ []) console refl (str_ne refl) refl

main-Exits_example :
    Exits
      (main cluster ("get" ∷ "web" ∷ "-n" ∷ "shop" ∷ []) console).0
      console
      (main cluster ("get" ∷ "web" ∷ "-n" ∷ "shop" ∷ []) console).1
      (Reason cluster ("get" ∷ "web" ∷ "-n" ∷ "shop" ∷ []) console)
main-Exits_example = main-Exits cluster ("get" ∷ "web" ∷ "-n" ∷ "shop" ∷ []) console
