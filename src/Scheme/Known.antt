-- ===== src/Scheme/Known.antt =====
-- api/v1alpha1/register.go, cmd/manager/main.go and cmd/diagctl/main.go: what the scheme knows after
-- init.
use mathlib.Core.List.{Memᴰ}
use k8s_health_ai.Prelude.{◌≡◌, refl, Outcome, ok, err, Outcome-cases, inl, inr, List, [], ◌∷◌}
use k8s_health_ai.Go.Errors.{Error}
use k8s_health_ai.Scheme.{
  GroupVersion, scheme_group_version, Kind, cluster_diagnosis, cluster_diagnosis_list,
  SchemeLibrary, add_known_types, add_to_scheme, manager_init, diagctl_init,
}

-- What is documented of the library, where `knows s` are the types that a scheme knows under a group
-- and version: a scheme that knows none of the types takes them, and it forgets none.
pub record SchemeLaws {S : Type 0} (lib : SchemeLibrary S)
    (knows : S → GroupVersion → Kind → Type 0) : Type 0 where
  pub registers :
      (gv : GroupVersion) (kinds : List Kind) (s : S)
      → ((k : Kind) → Memᴰ k kinds → ¬ knows s gv k)
      → ((lib.add_known_types gv kinds s).0 ≡ ok tt)
        × ((k : Kind) → Memᴰ k kinds → knows (lib.add_known_types gv kinds s).1 gv k)
  pub versions :
      (gv : GroupVersion) (s : S)
      → ((lib.add_to_group_version gv s).0 ≡ ok tt)
        × ((k : Kind) → knows s gv k → knows (lib.add_to_group_version gv s).1 gv k)
  pub others :
      (gv : GroupVersion) (k : Kind) (s : S) → knows (lib.add_client_go s).1 gv k → knows s gv k

-- How init ends: the types of client-go were refused, or both types of the API are known, under its
-- group and version.
abbrev pub Initialised :
    {S : Type 0}
    → (S → GroupVersion → Kind → Type 0)
    → Outcome Error (Unit {0})
    → Outcome Error (Unit {0})
    → S
    → Type 0
Initialised knows (err e) r s = r ≡ err e
Initialised knows (ok u) r s =
    (r ≡ ok tt)
    × knows s scheme_group_version cluster_diagnosis
    × knows s scheme_group_version cluster_diagnosis_list

module _ {S : Type 0} (lib : SchemeLibrary S) (knows : S → GroupVersion → Kind → Type 0)
    (laws : SchemeLaws lib knows) where
  add_to_scheme-Initialised :
      (s : S)
      → ((k : Kind) → ¬ knows s scheme_group_version k)
      → Initialised knows (ok tt) (add_to_scheme lib s).0 (add_to_scheme lib s).1
  unfolding add_to_scheme add_known_types
  add_to_scheme-Initialised s new =
      let (r1, known) =
        laws.registers scheme_group_version (cluster_diagnosis ∷ cluster_diagnosis_list ∷ []) s
          (λ k m. new k) in
      let (r2, kept) =
        laws.versions scheme_group_version
          (lib.add_known_types scheme_group_version
            (cluster_diagnosis ∷ cluster_diagnosis_list ∷ []) s).1 in
      rw (r1, r2)
        (
          refl,
          kept cluster_diagnosis (known cluster_diagnosis (Memᴰ.head refl)),
          kept cluster_diagnosis_list (known cluster_diagnosis_list (Memᴰ.tail (Memᴰ.head refl))),
        )

  -- On a scheme that knows no type of the API, the init of either command panics exactly if the
  -- types of client-go are refused; otherwise the scheme then knows ClusterDiagnosis and
  -- ClusterDiagnosisList under health.k8sai.io/v1alpha1.
  pub init-Initialised :
      (s : S)
      → ((k : Kind) → ¬ knows s scheme_group_version k)
      → Initialised knows (lib.add_client_go s).0 (manager_init lib s).0 (manager_init lib s).1
        × (diagctl_init lib s ≡ manager_init lib s)
  unfolding manager_init diagctl_init
  init-Initialised s new = elim (Outcome-cases (lib.add_client_go s).0) [
    | inl (u, e) ↦ rw e (add_to_scheme-Initialised _ (λ k h. new k (laws.others _ k s h)), refl)
    | inr (x, e) ↦ rw e (refl, refl)
  ]
