-- ===== src/Diagctl/Listing/Order.antt =====
-- cmd/diagctl/main.go: the order in which `list` shows the diagnoses.
use mathlib.Core.List.{Mem, Perm}
use mathlib.Core.List.Perm
use k8s_health_ai.Prelude.{
  ◌≡◌, refl, String, Bool, true, false, ◌&&◌, ◌||◌, not, if◌then◌else◌, ◌==◌, eq_iff, arith, List,
  Bool-cases, inl, inr, [], ◌∷◌, ◌↔◌, All, All-weaken, IsOrdered,
}
use k8s_health_ai.Go.Strings.{str_lt}
use k8s_health_ai.Go.Strings.Order.{str_lt_irrefl, str_lt_trans, str_lt_neg, str_lt_total}
use k8s_health_ai.Go.Sort.{IsStrictWeak, SortLaws}
use k8s_health_ai.Go.Sort.Unique.{IsOrdered-eq_of_perm}
use k8s_health_ai.Api.{ClusterDiagnosis}
use k8s_health_ai.Diagctl.Listing.{in_front}

-- by the first text, then by the second
abbrev lexical : String → String → String → String → Bool
lexical m s n t = str_lt m n || (not (str_lt n m) && str_lt s t)

lexical_cases :
    (m s n t : String) → (if not (m == n) then str_lt m n else str_lt s t) ≡ lexical m s n t
lexical_cases m s n t = elim (Bool-cases (m == n)) [
  | inl e ↦ let same = (eq_iff m n).0 e in let no = str_lt_irrefl n in rw (e, same, no) refl
  | inr e ↦ elim (Bool-cases (str_lt m n)) [
    | inl f ↦ rw (e, f) refl
    | inr f ↦ elim (Bool-cases (str_lt n m)) [
      | inl g ↦ rw (e, f, g) refl
      | inr g ↦ absurd (ground (arith, e, (eq_iff m n).1 (str_lt_total m n f g)))
    ]
  ]
]

lexical_trans :
    (m s n t o u : String)
    → lexical m s n t ≡ true
    → lexical n t o u ≡ true
    → lexical m s o u ≡ true
lexical_trans m s n t o u h k = ground (
  arith,
  h,
  k,
  str_lt_neg m n o,
  str_lt_neg m o n,
  str_lt_neg n m o,
  str_lt_neg n o m,
  str_lt_neg o m n,
  str_lt_neg o n m,
  str_lt_trans m n o,
  str_lt_trans m o n,
  str_lt_trans n m o,
  str_lt_trans n o m,
  str_lt_trans o m n,
  str_lt_trans o n m,
  str_lt_trans s t u,
)

lexical_neg :
    (m s n t o u : String)
    → lexical m s n t ≡ false
    → lexical n t o u ≡ false
    → lexical m s o u ≡ false
lexical_neg m s n t o u h k = ground (
  arith,
  h,
  k,
  str_lt_neg m n o,
  str_lt_neg m o n,
  str_lt_neg n m o,
  str_lt_neg n o m,
  str_lt_neg o m n,
  str_lt_neg o n m,
  str_lt_trans m n o,
  str_lt_trans m o n,
  str_lt_trans n m o,
  str_lt_trans n o m,
  str_lt_trans o m n,
  str_lt_trans o n m,
  str_lt_neg s t u,
)

in_front-lexical :
    (a b : ClusterDiagnosis)
    → in_front a b
      ≡ lexical a.metadata.namespace a.metadata.name b.metadata.namespace b.metadata.name
unfolding in_front
in_front-lexical a b =
    lexical_cases a.metadata.namespace a.metadata.name b.metadata.namespace b.metadata.name

pub in_front-IsStrictWeak : IsStrictWeak in_front
in_front-IsStrictWeak = record {
  irreflexive = λ a.
      rw in_front-lexical
        (ground (arith, str_lt_irrefl a.metadata.namespace, str_lt_irrefl a.metadata.name));
  transitive = λ a b c h k.
      rw in_front-lexical
        (lexical_trans _ _ _ _ _ _ (rw in_front-lexical at h) (rw in_front-lexical at k));
  negatively = λ a b c h k.
      rw in_front-lexical
        (lexical_neg _ _ _ _ _ _ (rw in_front-lexical at h) (rw in_front-lexical at k));
}

-- two diagnoses of one namespace and one name
abbrev pub IsSameObject : ClusterDiagnosis → ClusterDiagnosis → Type 0
IsSameObject a b =
    (a.metadata.namespace ≡ b.metadata.namespace) × (a.metadata.name ≡ b.metadata.name)

in_front-IsSameObject :
    (a b : ClusterDiagnosis) → in_front a b ≡ false → in_front b a ≡ false → IsSameObject a b
in_front-IsSameObject a b h k =
    let h' : lexical a.metadata.namespace a.metadata.name b.metadata.namespace b.metadata.name
        ≡ false =
      rw in_front-lexical at h in
    let k' : lexical b.metadata.namespace b.metadata.name a.metadata.namespace a.metadata.name
        ≡ false =
      rw in_front-lexical at k in
    (
      str_lt_total a.metadata.namespace b.metadata.namespace ground (arith, h', k') ground
          (arith, h', k'),
      str_lt_total a.metadata.name b.metadata.name ground (arith, h', k') ground (arith, h', k'),
    )

-- One diagnosis may stand before another: its namespace is in front in Go's order of texts, or the
-- namespaces are equal and the other's name is not in front of its own.
pub data IsListedBefore (a b : ClusterDiagnosis) : Type 0 where
  other_namespace : str_lt a.metadata.namespace b.metadata.namespace ≡ true → IsListedBefore a b
  one_namespace :
      a.metadata.namespace ≡ b.metadata.namespace
      → str_lt b.metadata.name a.metadata.name ≡ false
      → IsListedBefore a b

-- By namespace, and within a namespace by name: each may stand before all that follow it.
abbrev pub IsListed : List ClusterDiagnosis → Type 0
IsListed [] = Unit
IsListed (a ∷ xs) = All (IsListedBefore a) xs × IsListed xs

not_in_front-IsListedBefore : (a b : ClusterDiagnosis) → in_front b a ≡ false → IsListedBefore a b
not_in_front-IsListedBefore a b h =
    let h' : lexical b.metadata.namespace b.metadata.name a.metadata.namespace a.metadata.name
        ≡ false =
      rw in_front-lexical at h in
    elim (Bool-cases (str_lt a.metadata.namespace b.metadata.namespace)) [
      | inl e ↦ other_namespace e
      | inr e ↦
          one_namespace
            (str_lt_total a.metadata.namespace b.metadata.namespace e (ground (arith, h')))
            (ground (arith, e, h'))
    ]

IsListedBefore-not_in_front : (a b : ClusterDiagnosis) → IsListedBefore a b → in_front b a ≡ false
IsListedBefore-not_in_front a b (other_namespace e) = rw in_front-lexical (
    ground (
      arith,
      e,
      str_lt_irrefl a.metadata.namespace,
      str_lt_trans a.metadata.namespace b.metadata.namespace a.metadata.namespace,
    ))
IsListedBefore-not_in_front a b (one_namespace e f) =
    rw (in_front-lexical, e) (ground (arith, f, str_lt_irrefl b.metadata.namespace))

pub IsOrdered-IsListed : (xs : List ClusterDiagnosis) → IsOrdered in_front xs → IsListed xs
IsOrdered-IsListed [] h = tt
IsOrdered-IsListed (a ∷ xs) (h, hs) =
    (All-weaken xs (λ b. not_in_front-IsListedBefore a b) h, IsOrdered-IsListed xs hs)

IsListed-IsOrdered : (xs : List ClusterDiagnosis) → IsListed xs → IsOrdered in_front xs
IsListed-IsOrdered [] h = tt
IsListed-IsOrdered (a ∷ xs) (h, hs) =
    (All-weaken xs (λ b. IsListedBefore-not_in_front a b) h, IsListed-IsOrdered xs hs)

-- Where no two items have the same namespace and name, and sort.Slice permutes and orders: a list
-- has these items and stands in the order by namespace and then by name exactly if it is the list
-- that `list` shows.
pub sort-in_front :
    (sort : (ClusterDiagnosis → ClusterDiagnosis → Bool)
      → List ClusterDiagnosis
      → List ClusterDiagnosis)
    → SortLaws sort
    → (items : List ClusterDiagnosis)
    → ((a b : ClusterDiagnosis) → Mem a items → Mem b items → IsSameObject a b → a ≡ b)
    → (shown : List ClusterDiagnosis)
    → (Perm shown items × IsListed shown) ↔ (shown ≡ sort in_front items)
sort-in_front sort laws items distinct shown =
    let p = laws.permutes in_front items in
    let o = laws.ordered in_front in_front-IsStrictWeak items in
    (
      λ (q, l).
          IsOrdered-eq_of_perm in_front in_front-IsStrictWeak shown (sort in_front items)
            (λ a b m n h k.
              distinct a b ((Perm.mem_iff q).0 m) ((Perm.mem_iff q).0 n)
                (in_front-IsSameObject a b h k))
            (IsListed-IsOrdered shown l) o (Perm.trans q (Perm.symm p)),
      λ e. rw e (p, IsOrdered-IsListed (sort in_front items) o),
    )
