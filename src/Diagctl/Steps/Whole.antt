-- ===== src/Diagctl/Steps/Whole.antt =====
-- cmd/diagctl/main.go: what holds for the steps of a command holds for the command.
use k8s_health_ai.Prelude.{String, Outcome, ok, err, List, [], ◌∷◌, ◌==◌}
use k8s_health_ai.Go.Errors.{Error, is_not_found}
use k8s_health_ai.Go.Flag.{Flags}
use k8s_health_ai.Action.{attempt}
use k8s_health_ai.Api.{ClusterDiagnosis}
use k8s_health_ai.Diagctl.Console.{Cluster, Console, ask, deleted}
use k8s_health_ai.Diagctl.Listing.{in_front}
use k8s_health_ai.Diagctl.Usage.{list_usage, explain_text, explain_usage, get_usage, delete_usage}
use k8s_health_ai.Diagctl.Arguments.{
  namespace_of, output_of, validate_output, asks_help, is_help, is_confirmed,
}
use k8s_health_ai.Diagctl.Commands.{
  wrap_failure, list_scope, list_all, no_arguments, run_list, print_diagnosis, get_named, run_get,
  explain_or_refuse, run_explain, after_delete, delete_resolved, delete_named, run_delete,
}
use k8s_health_ai.Diagctl.Steps.{
  IsStep, Follows, then-Follows, lift-Follows, attempt_listed-Follows, print-Follows, if_Follows,
  unexpected-Follows, with_flags-Follows, with_name-Follows, kube_client-Follows,
  resolve_diagnosis-Follows, print_list-Follows,
}

module _ {S : Type 0} {R : Console S → Console S → Type 0} ⦃step : IsStep R⦄
    (cluster : Cluster S) where
  list_all-Follows : (fs : Flags) → Follows R (list_all cluster fs)
  unfolding list_all
  list_all-Follows fs =
      let scope = list_scope cluster (namespace_of fs) in
      then-Follows _ _ (kube_client-Follows cluster) λ u.
        then-Follows _ _ (attempt_listed-Follows scope (cluster.list scope)) λ got.
          then-Follows _ _ (lift-Follows (wrap_failure "list clusterdiagnoses" got)) λ list.
            print_list-Follows cluster (output_of fs)
              (record list { items = cluster.sort_items in_front list.items })

  no_arguments-Follows :
      (fs : Flags) (args : List String) → Follows R (no_arguments cluster fs args)
  unfolding no_arguments
  no_arguments-Follows fs [] = list_all-Follows fs
  no_arguments-Follows fs (a ∷ args) =
      if_Follows (asks_help (a ∷ args)) _ _ (print-Follows list_usage)
        (unexpected-Follows list_usage (a ∷ args))

  pub run_list-Follows : (args : List String) → Follows R (run_list cluster args)
  unfolding run_list
  run_list-Follows args = with_flags-Follows list_usage _ _ λ fs rest.
      then-Follows _ _ (lift-Follows (validate_output cluster.quote (output_of fs)))
        λ u. no_arguments-Follows fs rest

  print_diagnosis-Follows :
      (output : String) (cd : ClusterDiagnosis) → Follows R (print_diagnosis cluster output cd)
  unfolding print_diagnosis
  print_diagnosis-Follows output cd =
      if_Follows (output == "json") _ _
        (then-Follows _ _ (lift-Follows (cluster.encode cd)) print-Follows)
        (then-Follows _ _ (lift-Follows (wrap_failure "marshal yaml" (cluster.marshal cd)))
          print-Follows)

  get_named-Follows : (fs : Flags) (name : String) → Follows R (get_named cluster fs name)
  unfolding get_named
  get_named-Follows fs name = then-Follows _ _ (kube_client-Follows cluster) λ u.
      then-Follows _ _ (resolve_diagnosis-Follows cluster (namespace_of fs) name)
        (print_diagnosis-Follows (output_of fs))

  pub run_get-Follows : (args : List String) → Follows R (run_get cluster args)
  unfolding run_get
  run_get-Follows args = with_flags-Follows get_usage _ _ λ fs rest.
      then-Follows _ _ (lift-Follows (validate_output cluster.quote (output_of fs)))
        λ u. with_name-Follows get_usage rest (get_named cluster fs) (get_named-Follows fs)

  explain_or_refuse-Follows : (args : List String) → Follows R (explain_or_refuse cluster args)
  unfolding explain_or_refuse
  explain_or_refuse-Follows [] = print-Follows explain_text
  explain_or_refuse-Follows (a ∷ args) =
      if_Follows (is_help a) _ _ (print-Follows explain_usage)
        (unexpected-Follows explain_usage (a ∷ args))

  pub run_explain-Follows : (args : List String) → Follows R (run_explain cluster args)
  unfolding run_explain
  run_explain-Follows args =
      with_flags-Follows explain_usage _ _ λ fs rest. explain_or_refuse-Follows rest

  pub after_delete-Follows :
      (name : String) (cd : ClusterDiagnosis) (r : Outcome Error (Unit {0}))
      → Follows R (after_delete cluster name cd r)
  unfolding after_delete
  after_delete-Follows name cd (ok u) = record { kept = λ c. step.prints c _ }
  after_delete-Follows name cd (err e) =
      if_Follows (is_not_found e) _ _ (record { kept = λ c. step.same c })
        (record { kept = λ c. step.same c })

  -- `delete`, for a relation that a deletion keeps too
  module _
      (deletes : (c : Console S) (s : S) (cd : ClusterDiagnosis)
        → R c (record c { state = s; requests = deleted cd ∷ c.requests })) where
    delete_resolved-Follows :
        (fs : Flags) (name : String) → Follows R (delete_resolved cluster fs name)
    unfolding delete_resolved
    delete_resolved-Follows fs name = then-Follows _ _ (kube_client-Follows cluster) λ u.
        then-Follows _ _ (resolve_diagnosis-Follows cluster (namespace_of fs) name) λ cd.
          then-Follows (attempt (ask (deleted cd) (cluster.delete cd))) _
            (record { kept = λ c. deletes c _ cd }) (after_delete-Follows name cd)

    delete_named-Follows : (fs : Flags) (name : String) → Follows R (delete_named cluster fs name)
    unfolding delete_named
    delete_named-Follows fs name =
        if_Follows (is_confirmed fs) _ _ (delete_resolved-Follows fs name)
          (record { kept = λ c. step.same c })

    pub run_delete-Follows : (args : List String) → Follows R (run_delete cluster args)
    unfolding run_delete
    run_delete-Follows args = with_flags-Follows delete_usage _ _ λ fs rest.
        then-Follows _ _ (lift-Follows (validate_output cluster.quote (output_of fs))) λ u.
          with_name-Follows delete_usage rest (delete_named cluster fs) (delete_named-Follows fs)
