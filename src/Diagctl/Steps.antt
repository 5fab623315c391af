-- ===== src/Diagctl/Steps.antt =====
-- cmd/diagctl/main.go: what holds between the console before and behind every part of a command,
-- because it holds for each of its steps.
pub mod Whole
use k8s_health_ai.Prelude.{
  ℕ, String, Bool, true, false, ◌≡◌, ◌≢◌, refl, ◌⊎◌, inl, inr, Bool-cases, ◌∙◌, if◌then◌else◌,
  Outcome, ok, err, Option, none, some, List, [], ◌∷◌, ◌==◌, ◌<>◌, arith,
}
use k8s_health_ai.Go.Errors.{Error}
use k8s_health_ai.Go.Flag.{Flags, Parsed, parsed, help, failed, parse}
use k8s_health_ai.Action.{Action, pure, lift, attempt, continue, ◌>>=◌}
use k8s_health_ai.Kube.{Key}
use k8s_health_ai.Api.{ClusterDiagnosis, ClusterDiagnosisList}
use k8s_health_ai.Go.Tabwriter.{print_table}
use k8s_health_ai.Diagctl.Console.{
  Cluster, Console, Run, Request, quietly, ask, print_out, print_err, listed, fetched, deleted,
}
use k8s_health_ai.Diagctl.Listing.{item_age, table_header, table_row, table_rows, print_list_text}
use k8s_health_ai.Diagctl.Resolve.{
  matches, single_match, fetched_or, resolve_in, resolve_anywhere, resolve_diagnosis,
}
use k8s_health_ai.Diagctl.Arguments.{
  delete_flags, namespace_of, is_confirmed, with_flags, with_name, asks_help, check_name,
  unexpected, name_missing,
}
use k8s_health_ai.Diagctl.Commands.{
  wrap_failure, kube_client, print_list, list_all, no_arguments, run_list, print_diagnosis,
  get_named, run_get, after_delete, delete_resolved, delete_named, run_delete, explain_or_refuse,
  run_explain,
}

-- A relation on consoles that each step of a command keeps, but for a deletion.
pub record IsStep {S : Type 0} (R : Console S → Console S → Type 0) : Type 0 where
  pub same : (c : Console S) → R c c
  pub joins : (a b c : Console S) → R a b → R b c → R a c
  pub moves : (c : Console S) (s : S) → R c (record c { state = s })
  pub prints : (c : Console S) (t : String) → R c (record c { stdout = c.stdout <> t })
  pub complains : (c : Console S) (t : String) → R c (record c { stderr = c.stderr <> t })
  pub lists :
      (c : Console S) (s : S) (scope : Option String)
      → R c (record c { state = s; requests = listed scope ∷ c.requests })
  pub gets :
      (c : Console S) (s : S) (key : Key)
      → R c (record c { state = s; requests = fetched key ∷ c.requests })

-- The run keeps the relation, from any console.
pub record Follows {S A : Type 0} (R : Console S → Console S → Type 0) (m : Run S A) : Type 0 where
  pub kept : (c : Console S) → R c (m c).1

module _ {S : Type 0} {R : Console S → Console S → Type 0} ⦃step : IsStep R⦄ where
  continue-Follows :
      {A B : Type 0} (r : Outcome Error A) (f : A → Run S B) (before after : Console S)
      → R before after
      → ((a : A) → Follows R (f a))
      → R before (continue r f after).1
  continue-Follows (ok a) f before after h k = step.joins before after _ h ((k a).kept after)
  continue-Follows (err e) f before after h k = h

  pub then-Follows :
      {A B : Type 0} (m : Run S A) (f : A → Run S B)
      → Follows R m
      → ((a : A) → Follows R (f a))
      → Follows R (m >>= f)
  then-Follows m f h k = record { kept = λ c. continue-Follows (m c).0 f c (m c).1 (h.kept c) k }

  pub quietly-Follows : {A : Type 0} (m : Action S A) → Follows R (attempt (quietly m))
  quietly-Follows m = record { kept = λ c. step.moves c _ }

  pub lift-Follows : {A : Type 0} (r : Outcome Error A) → Follows R (lift r)
  lift-Follows r = record { kept = λ c. step.same c }

  pub pure-Follows : {A : Type 0} (a : A) → Follows R (pure a)
  pure-Follows a = record { kept = λ c. step.same c }

  pub print-Follows : (s : String) → Follows R (print_out s)
  print-Follows s = record { kept = λ c. step.prints c s }

  pub listed-Follows :
      {A : Type 0} (scope : Option String) (m : Action S A) → Follows R (ask (listed scope) m)
  listed-Follows scope m = record { kept = λ c. step.lists c _ scope }

  pub attempt_listed-Follows :
      {A : Type 0} (scope : Option String) (m : Action S A)
      → Follows R (attempt (ask (listed scope) m))
  attempt_listed-Follows scope m = record { kept = λ c. step.lists c _ scope }

  pub fetched-Follows :
      {A : Type 0} (key : Key) (m : Action S A) → Follows R (attempt (ask (fetched key) m))
  fetched-Follows key m = record { kept = λ c. step.gets c _ key }

  pub if_Follows :
      {A : Type 0} (b : Bool) (m n : Run S A)
      → Follows R m
      → Follows R n
      → Follows R (if b then m else n)
  if_Follows true m n h k = h
  if_Follows false m n h k = k

  -- the arguments, and what is behind them
  pub unexpected-Follows : (usage : String) (args : List String) → Follows R (unexpected usage args)
  unfolding unexpected
  unexpected-Follows usage args = record { kept = λ c. step.complains c _ }

  pub name_missing-Follows : (usage : String) → Follows R (name_missing usage)
  unfolding name_missing
  name_missing-Follows usage = record { kept = λ c. step.complains c _ }

  pub with_flags-Follows :
      (usage : String) (p : Parsed) (rest : Flags → List String → Run S (Unit {0}))
      → ((fs : Flags) (args : List String) → Follows R (rest fs args))
      → Follows R (with_flags usage p rest)
  unfolding with_flags
  with_flags-Follows usage (parsed fs args) rest h = h fs args
  with_flags-Follows usage help rest h = record { kept = λ c. step.complains c _ }
  with_flags-Follows usage (failed msg) rest h = record { kept = λ c. step.complains c _ }

  pub check_name-Follows :
      (usage : String) (args : List String) (rest : String → Run S (Unit {0}))
      → ((name : String) → Follows R (rest name))
      → Follows R (check_name usage args rest)
  unfolding check_name
  check_name-Follows usage [] rest h = name_missing-Follows usage
  check_name-Follows usage (name ∷ []) rest h =
      if_Follows (name == "") _ _ (name_missing-Follows usage) (h name)
  check_name-Follows usage (name ∷ a ∷ args) rest h =
      if_Follows (name == "") _ _ (name_missing-Follows usage) (unexpected-Follows usage (a ∷ args))

  pub with_name-Follows :
      (usage : String) (args : List String) (rest : String → Run S (Unit {0}))
      → ((name : String) → Follows R (rest name))
      → Follows R (with_name usage args rest)
  unfolding with_name
  with_name-Follows usage args rest h =
      if_Follows (asks_help args) _ _ (print-Follows usage) (check_name-Follows usage args rest h)

module _ {S : Type 0} {R : Console S → Console S → Type 0} ⦃step : IsStep R⦄
    (cluster : Cluster S) where
  pub kube_client-Follows : Follows R (kube_client cluster)
  unfolding kube_client
  kube_client-Follows = then-Follows _ _ (quietly-Follows cluster.get_config) λ config.
      then-Follows _ _
        (lift-Follows (wrap_failure "kubernetes config (in-cluster or kubeconfig)" config))
        λ u.
          then-Follows _ _ (quietly-Follows cluster.new_client)
            λ client. lift-Follows (wrap_failure "controller-runtime client" client)

  pub fetched_or-Follows :
      (namespace name : String) (r : Outcome Error ClusterDiagnosis)
      → Follows R (fetched_or cluster namespace name r)
  unfolding fetched_or
  fetched_or-Follows namespace name (ok cd) = record { kept = λ c. step.same c }
  fetched_or-Follows namespace name (err e) = record { kept = λ c. step.same c }

  pub resolve_diagnosis-Follows :
      (namespace name : String) → Follows R (resolve_diagnosis cluster namespace name)
  unfolding resolve_diagnosis resolve_anywhere resolve_in
  resolve_diagnosis-Follows namespace name =
      let key : Key = record { namespace = namespace; name = name } in
      if_Follows (namespace == "") _ _
        (then-Follows _ _ (listed-Follows none (cluster.list none))
          λ list. lift-Follows (single_match cluster.quote name (matches name list.items)))
        (then-Follows _ _ (fetched-Follows key (cluster.get key))
          (fetched_or-Follows namespace name))

  pub item_age-Follows : (t : Option ℕ) → Follows R (item_age cluster t)
  unfolding item_age
  item_age-Follows none = record { kept = λ c. step.same c }
  item_age-Follows (some t) = record { kept = λ c. step.moves c _ }

  pub table_rows-Follows : (items : List ClusterDiagnosis) → Follows R (table_rows cluster items)
  unfolding table_rows
  table_rows-Follows [] = record { kept = λ c. step.same c }
  table_rows-Follows (item ∷ items) =
      then-Follows _ _ (item_age-Follows item.metadata.creation_timestamp) λ age.
        then-Follows _ _ (table_rows-Follows items) λ rows. pure-Follows (table_row item age ∷ rows)

  pub print_list-Follows :
      (output : String) (list : ClusterDiagnosisList) → Follows R (print_list cluster output list)
  unfolding print_list print_list_text
  print_list-Follows output list =
      if_Follows (output == "json") _ _
        (then-Follows _ _ (lift-Follows (cluster.encode_list list)) λ s. print-Follows s)
        (then-Follows _ _ (table_rows-Follows list.items)
          λ rows. print-Follows (print_table (table_header ∷ rows)))
