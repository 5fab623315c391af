-- ===== src/Diagctl/Resolve.antt =====
-- cmd/diagctl/main.go: `resolveDiagnosis`, which finds a diagnosis by its name.
pub mod Unique
use k8s_health_ai.Prelude.{
  String, Bool, Option, none, some, Outcome, ok, err, List, [], ◌∷◌, map, ◌==◌, ◌<>◌, select,
  if◌then◌else◌,
}
use k8s_health_ai.Go.Errors.{Error, text_error, is_not_found}
use k8s_health_ai.Action.{pure, raise, lift, attempt, ◌>>=◌}
use k8s_health_ai.Kube.{Key}
use k8s_health_ai.Api.{ClusterDiagnosis, ClusterDiagnosisList}
use k8s_health_ai.Diagctl.Console.{Cluster, Console, Run, ask, listed, fetched}

-- fmt's verb %v on a slice of strings
unfoldable pub join_blank : List String → String
join_blank [] = ""
join_blank (s ∷ []) = s
join_blank (s ∷ t ∷ ts) = s <> " " <> join_blank (t ∷ ts)

abbrev pub show_list : List String → String
show_list ss = "[" <> join_blank ss <> "]"

-- the loop that collects the matches
abbrev pub matches : String → List ClusterDiagnosis → List ClusterDiagnosis
matches name = select λ (cd : ClusterDiagnosis). cd.metadata.name == name

module _ (quote : String → String) where
  -- the switch on the number of matches
  unfoldable pub single_match : String → List ClusterDiagnosis → Outcome Error ClusterDiagnosis
  single_match name [] = err (
      text_error (
        "clusterdiagnosis "
        <> quote name
        <> " not found in any namespace (try: diagctl get "
        <> name
        <> " -n <namespace>)"))
  single_match name (m ∷ []) = ok m
  single_match name (m ∷ n ∷ ms) = err (
      text_error (
        "multiple clusterdiagnoses named "
        <> quote name
        <> " in namespaces "
        <> show_list (map (λ (cd : ClusterDiagnosis). cd.metadata.namespace) (m ∷ n ∷ ms))
        <> "; specify -n"))

  -- the error of Get in a namespace
  unfoldable pub not_found_in : String → String → Error → Error
  not_found_in namespace name e =
      if is_not_found e
      then text_error
          ("clusterdiagnosis " <> quote name <> " not found in namespace " <> quote namespace)
      else e

module _ {S : Type 0} (cluster : Cluster S) where
  unfoldable pub fetched_or :
      String → String → Outcome Error ClusterDiagnosis → Run S ClusterDiagnosis
  fetched_or namespace name (ok cd) = pure cd
  fetched_or namespace name (err e) = raise (not_found_in cluster.quote namespace name e)

  unfoldable pub resolve_in : String → String → Run S ClusterDiagnosis
  unfolding fetched_or
  resolve_in namespace name = do
    let key : Key = record { namespace = namespace; name = name }
    got ← attempt (ask (fetched key) (cluster.get key))
    fetched_or namespace name got

  unfoldable pub resolve_anywhere : String → Run S ClusterDiagnosis
  resolve_anywhere name = do
    list ← ask (listed none) (cluster.list none)
    lift (single_match cluster.quote name (matches name list.items))

  unfoldable pub resolve_diagnosis : String → String → Run S ClusterDiagnosis
  resolve_diagnosis namespace name =
      if namespace == "" then resolve_anywhere name else resolve_in namespace name
