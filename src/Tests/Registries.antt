-- ===== src/Tests/Registries.antt =====
-- The registration of the metrics and of the API types, at a registry of names and a scheme of types
-- in memory.
use mathlib.Core.List.{Memᴰ}
use mathlib.Core.List.Memᴰ.{not-nil}
use k8s_health_ai.Prelude.{
  ◌≡◌, refl, ap, String, Bool, true, false, Bool-cases, ◌||◌, inl, inr, Outcome, ok, err, List, [],
  ◌∷◌, ◌++◌, map, length, eqb, ◌==◌, eq_iff, if◌then◌else◌, arith,
}
use k8s_health_ai.Go.Errors.{Error, text_error}
use k8s_health_ai.World.{Call}
use k8s_health_ai.Prelude.Int.{ℤ}
use k8s_health_ai.Metrics.{
  Sample, inc, observe, observe_llm_call, record_diagnosis, observe_reconcile, Prometheus, init,
}
use k8s_health_ai.Metrics.Reported.{Fits, PrometheusLaws, report, vec_names, init-Registered}
use k8s_health_ai.Scheme.{GroupVersion, Kind, SchemeLibrary, manager_init, diagctl_init}
use k8s_health_ai.Scheme.Known.{SchemeLaws, Initialised, init-Initialised}

abbrev panic : Outcome Error (Unit {0})
panic = err (text_error "panic")

abbrev checked : Bool → Outcome Error (Unit {0})
checked true = ok tt
checked false = panic

is_taken : String → List String → Bool
is_taken name [] = false
is_taken name (n ∷ names) = name == n || is_taken name names

is_taken_iff :
    (name : String) (names : List String)
    → (is_taken name names ≡ true → Memᴰ name names)
      × (Memᴰ name names → is_taken name names ≡ true)
unfolding is_taken
is_taken_iff name [] = ((λ e. absurd (ground (arith, e))), λ m. absurd (not-nil m))
is_taken_iff name (n ∷ names) = elim (Bool-cases (name == n)) [
  | inl e ↦ ((λ h. Memᴰ.head ((eq_iff name n).0 e)), λ m. rw e refl)
  | inr e ↦ (
    (λ h. Memᴰ.tail ((is_taken_iff name names).0 (ground (arith, e, h)))),
    λ m. elim m [
      | Memᴰ.head p ↦ absurd (ground (arith, e, (eq_iff name n).1 p))
      | Memᴰ.tail m' ↦ rw e ((is_taken_iff name names).1 m')
    ],
  )
]

abbrev count_labels : Sample → Bool
count_labels (inc v values) = eqb (length values) (length v.labels)
count_labels (observe v values d) = eqb (length values) (length v.labels)

abbrev registry : Prometheus (List String)
registry = record {
  must_register =
      λ v names. if is_taken v.name names then (panic, names) else (ok tt, v.name ∷ names);
  sample = λ x names. (checked (count_labels x), names);
}

counted-ok : (x : Sample) (names : List String) → Fits x → (registry.sample x names).0 ≡ ok tt
counted-ok (inc v values) names (k, n) = ground (arith, n)
counted-ok (observe v values d) names (k, n) = ground (arith, n)

registry-PrometheusLaws : PrometheusLaws registry (λ names. names)
registry-PrometheusLaws = record {
  registers = λ v names free. elim (Bool-cases (is_taken v.name names)) [
    | inl e ↦ absurd (free ((is_taken_iff v.name names).0 e))
    | inr e ↦ rw e (refl, refl)
  ];
  refuses = λ v names m. (text_error "panic", rw ((is_taken_iff v.name names).1 m) refl);
  samples = counted-ok;
}

init-Registered_example :
    ((init registry []).0 ≡ ok tt)
    × ((init registry []).1 ≡ vec_names ++ [])
    × ((e : Error) × ((init registry (init registry []).1).0 ≡ err e))
    × ((ft phase : String) (names : List String)
        → (registry.sample (record_diagnosis ft phase) names).0 ≡ ok tt)
    × ((result : String) (d : ℤ) (names : List String)
        → (registry.sample (observe_reconcile result d) names).0 ≡ ok tt)
    × ((provider result : String) (d : ℤ) (names : List String)
        → (registry.sample (observe_llm_call provider result d) names).0 ≡ ok tt)
    × ((calls : List Call) → (report registry calls (init registry []).1).0 ≡ ok tt)
init-Registered_example =
    init-Registered registry (λ names. names) registry-PrometheusLaws [] not-nil not-nil not-nil

abbrev Types : Type 0
Types = List (GroupVersion × Kind)

abbrev Knows : Types → GroupVersion → Kind → Type 0
Knows types gv k = Memᴰ (gv, k) types

abbrev with_version : GroupVersion → Kind → GroupVersion × Kind
with_version gv k = (gv, k)

abbrev scheme : SchemeLibrary Types
scheme = record {
  group_resource = λ gv name. record { group = gv.group; resource = name };
  add_known_types = λ gv kinds types. (ok tt, map (with_version gv) kinds ++ types);
  add_to_group_version = λ gv types. (ok tt, types);
  add_client_go = λ types. (ok tt, types);
}

added-Knows :
    (gv : GroupVersion) (k : Kind) (kinds : List Kind) (types : Types)
    → Memᴰ k kinds
    → Knows (map (with_version gv) kinds ++ types) gv k
added-Knows gv k [] types m = absurd (not-nil m)
added-Knows gv k (k' ∷ kinds) types m = elim m [
  | Memᴰ.head p ↦ Memᴰ.head (ap (with_version gv) p)
  | Memᴰ.tail m' ↦ Memᴰ.tail (added-Knows gv k kinds types m')
]

scheme-SchemeLaws : SchemeLaws scheme Knows
scheme-SchemeLaws = record {
  registers = λ gv kinds types new. (refl, λ k m. added-Knows gv k kinds types m);
  versions = λ gv types. (refl, λ k m. m);
  others = λ gv k types m. m;
}

init-Initialised_example :
    Initialised Knows (ok tt) (manager_init scheme []).0 (manager_init scheme []).1
    × (diagctl_init scheme [] ≡ manager_init scheme [])
init-Initialised_example = init-Initialised scheme Knows scheme-SchemeLaws [] (λ k. not-nil)
