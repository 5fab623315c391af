-- ===== src/Diagctl/Deletes/Confirmed.antt =====
-- cmd/diagctl/main.go: what `delete` deletes.
use k8s_health_ai.Prelude.{
  String, Outcome-cases, true, ◌≡◌, refl, ap, ◌∙◌, ◌⊎◌, inl, inr, Bool-cases, ok, List, [], ◌∷◌,
  ◌==◌,
}
use k8s_health_ai.Action.{lift, ◌>>◌}
use k8s_health_ai.Go.Flag.{Flags, Parsed, parsed, help, failed, parse}
use k8s_health_ai.Api.{ClusterDiagnosis}
use k8s_health_ai.Diagctl.Console.{Cluster, Console, Run, ask, deleted}
use k8s_health_ai.Diagctl.Resolve.{resolve_diagnosis}
use k8s_health_ai.Diagctl.Usage.{delete_usage}
use k8s_health_ai.Diagctl.Arguments.{
  delete_flags, namespace_of, output_of, is_confirmed, validate_output, asks_help, with_flags,
  with_name, check_name, unexpected, name_missing,
}
use k8s_health_ai.Diagctl.Commands.{kube_client, delete_resolved, delete_named, run_delete}
use k8s_health_ai.Diagctl.Steps.{kube_client-Follows, resolve_diagnosis-Follows}
use k8s_health_ai.Diagctl.Steps.Whole.{after_delete-Follows}
use k8s_health_ai.Diagctl.Deletes.{deleted_by, Spares, Spares-IsStep}

module _ {S : Type 0} (cluster : Cluster S) where
  -- The run deletes `cd`, which resolveDiagnosis found for the one argument NAME, and --yes is set.
  pub record Confirmed (args : List String) (before after : Console S) : Type 0 where
    pub fs : Flags
    pub name : String
    pub cd : ClusterDiagnosis
    pub asked : Console S
    pub parses : parse cluster.quote delete_flags args ≡ parsed fs (name ∷ [])
    pub confirmed : is_confirmed fs ≡ true
    pub resolved : (resolve_diagnosis cluster (namespace_of fs) name asked).0 ≡ ok cd
    pub done : deleted_by after ≡ cd ∷ deleted_by before

  -- what `delete` does behind its arguments: no deletion, or that of what was resolved
  abbrev Resolves : String → String → Console S → Console S → Type 0
  Resolves namespace name before after =
      (deleted_by after ≡ deleted_by before)
      ⊎ ((cd : ClusterDiagnosis) × (asked : Console S) × ((resolve_diagnosis cluster namespace name
              asked).0
            ≡ ok cd)
          × (deleted_by after ≡ cd ∷ deleted_by before))

  delete_resolved-Resolves :
      (fs : Flags) (name : String) (c : Console S)
      → Resolves (namespace_of fs) name c (delete_resolved cluster fs name c).1
  unfolding delete_resolved
  delete_resolved-Resolves fs name c =
      let c1 = (kube_client cluster c).1 in
      let e1 = (kube_client-Follows {R = Spares} cluster).kept c in
      let c2 = (resolve_diagnosis cluster (namespace_of fs) name c1).1 in
      let e2 = (resolve_diagnosis-Follows {R = Spares} cluster (namespace_of fs) name).kept c1 in
      elim (Outcome-cases (kube_client cluster c).0) [
        | inr (e, stop) ↦ inl (rw stop e1)
        | inl (u, go) ↦
            elim (Outcome-cases (resolve_diagnosis cluster (namespace_of fs) name c1).0) [
              | inr (e, stop) ↦ inl (rw (go, stop) (e2 ∙ e1))
              | inl (cd, found) ↦
                  (let (answer, c3) = ask (deleted cd) (cluster.delete cd) c2 in
                    let behind =
                      (after_delete-Follows {R = Spares} cluster name cd answer).kept c3 in
                    inr (cd, c1, found, rw (go, found) (behind ∙ ap (λ l. cd ∷ l) (e2 ∙ e1))))
            ]
      ]

  delete_named-Resolves :
      (fs : Flags) (name : String) (c : Console S)
      → (deleted_by (delete_named cluster fs name c).1 ≡ deleted_by c)
        ⊎ ((is_confirmed fs ≡ true)
            × Resolves (namespace_of fs) name c (delete_named cluster fs name c).1)
  unfolding delete_named
  delete_named-Resolves fs name c = elim (Bool-cases (is_confirmed fs)) [
    | inl e ↦ inr (e, rw e (delete_resolved-Resolves fs name c))
    | inr e ↦ inl (rw e refl)
  ]

  check_name-Confirmed :
      (args : List String) (fs : Flags) (rest : List String) (c : Console S)
      → parse cluster.quote delete_flags args ≡ parsed fs rest
      → (deleted_by (check_name delete_usage rest (delete_named cluster fs) c).1 ≡ deleted_by c)
        ⊎ Confirmed args c (check_name delete_usage rest (delete_named cluster fs) c).1
  unfolding check_name name_missing unexpected
  check_name-Confirmed args fs [] c h = inl refl
  check_name-Confirmed args fs (name ∷ []) c h = elim (Bool-cases (name == "")) [
    | inl e ↦ inl (rw e refl)
    | inr e ↦ rw e (elim (delete_named-Resolves fs name c) [
      | inl k ↦ inl k
      | inr (set, inl k) ↦ inl k
      | inr (set, inr (cd, asked, found, k)) ↦ inr record {
        fs = fs;
        name = name;
        cd = cd;
        asked = asked;
        parses = h;
        confirmed = set;
        resolved = found;
        done = k;
      }
    ])
  ]
  check_name-Confirmed args fs (name ∷ a ∷ rest) c h = elim (Bool-cases (name == "")) [
    | inl e ↦ inl (rw e refl)
    | inr e ↦ inl (rw e refl)
  ]

  -- what `delete` does behind its flags
  abbrev behind_flags : Flags → List String → Run S (Unit {0})
  behind_flags fs rest = do
    lift (validate_output cluster.quote (output_of fs))
    with_name delete_usage rest (delete_named cluster fs)

  behind_flags-Confirmed :
      (args : List String) (p : Parsed) (c : Console S)
      → parse cluster.quote delete_flags args ≡ p
      → (deleted_by (with_flags delete_usage p behind_flags c).1 ≡ deleted_by c)
        ⊎ Confirmed args c (with_flags delete_usage p behind_flags c).1
  unfolding with_flags with_name
  behind_flags-Confirmed args help c h = inl refl
  behind_flags-Confirmed args (failed msg) c h = inl refl
  behind_flags-Confirmed args (parsed fs rest) c h =
      elim (Outcome-cases (validate_output cluster.quote (output_of fs))) [
        | inr (e, bad) ↦ inl (rw bad refl)
        | inl (u, good) ↦ rw good (elim (Bool-cases (asks_help rest)) [
          | inl e ↦ rw e (inl refl)
          | inr e ↦ rw e (check_name-Confirmed args fs rest c h)
        ])
      ]

  -- `delete` deletes nothing, or exactly one diagnosis: its flags were parsed with --yes and one
  -- argument NAME, and resolveDiagnosis answered with this diagnosis for NAME.
  pub run_delete-Confirmed :
      (args : List String) (c : Console S)
      → (deleted_by (run_delete cluster args c).1 ≡ deleted_by c)
        ⊎ Confirmed args c (run_delete cluster args c).1
  unfolding run_delete
  run_delete-Confirmed args c =
      behind_flags-Confirmed args (parse cluster.quote delete_flags args) c refl
