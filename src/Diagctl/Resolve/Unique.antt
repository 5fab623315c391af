-- ===== src/Diagctl/Resolve/Unique.antt =====
-- cmd/diagctl/main.go: the name of `resolveDiagnosis` without a namespace.
use k8s_health_ai.Prelude.{
  String, Bool, true, false, ◌≡◌, refl, sym, ◌∙◌, ◌↔◌, none, ok, List, [], ◌∷◌, ◌++◌, ◌==◌,
  Bool-cases, eq_iff, inl, inr, arith, All, select, ap,
}
use k8s_health_ai.Api.{ClusterDiagnosis, ClusterDiagnosisList}
use k8s_health_ai.Diagctl.Console.{Cluster, Console}
use k8s_health_ai.Diagctl.Resolve.{matches, single_match, resolve_anywhere, resolve_diagnosis}

-- `cd` is the one item of the list that has the name.
pub record IsOnly (name : String) (cd : ClusterDiagnosis) (items : List ClusterDiagnosis)
    : Type 0 where
  pub before : List ClusterDiagnosis
  pub after : List ClusterDiagnosis
  pub place : items ≡ before ++ cd ∷ after
  pub has_name : cd.metadata.name ≡ name
  pub others_before : All (λ item. (item.metadata.name == name) ≡ false) before
  pub others_after : All (λ item. (item.metadata.name == name) ≡ false) after

module _ {A : Type 0} (p : A → Bool) where
  select-none : (xs : List A) → (select p xs ≡ []) ↔ All (λ x. p x ≡ false) xs
  select-none [] = ground arith
  select-none (x ∷ xs) = grind (arith, select-none xs)

  select-skip : (xs ys : List A) → All (λ x. p x ≡ false) xs → select p (xs ++ ys) ≡ select p ys
  select-skip [] ys h = refl
  select-skip (x ∷ xs) ys (h, hs) = rw h (select-skip xs ys hs)

  -- where the one item that passes the test stands
  record Place (x : A) (xs : List A) : Type 0 where
    before : List A
    after : List A
    place : xs ≡ before ++ x ∷ after
    passes : p x ≡ true
    others_before : All (λ y. p y ≡ false) before
    others_after : All (λ y. p y ≡ false) after

  select-Place : (x : A) (xs : List A) → select p xs ≡ x ∷ [] → Place x xs
  select-Place x [] h = cc
  select-Place x (y ∷ xs) h = elim (Bool-cases (p y)) [
    | inl e ↦
        let rest : y ∷ select p xs ≡ x ∷ [] = rw e at h in
        record {
          before = [];
          after = xs;
          place = ground (arith, rest);
          passes = ground (arith, e, rest);
          others_before = tt;
          others_after = (select-none xs).0 (ground (arith, rest));
        }
    | inr e ↦
        let rest = select-Place x xs (rw e at h) in
        record {
          before = y ∷ rest.before;
          after = rest.after;
          place = ap (λ l. y ∷ l) rest.place;
          passes = rest.passes;
          others_before = (e, rest.others_before);
          others_after = rest.others_after;
        }
  ]

  Place-select : (x : A) (xs : List A) → Place x xs → select p xs ≡ x ∷ []
  Place-select x xs at_x = rw (at_x.place) (
      select-skip at_x.before (x ∷ at_x.after) at_x.others_before
      ∙ rw at_x.passes (ap (λ l. x ∷ l) ((select-none at_x.after).1 at_x.others_after)))

matches-IsOnly :
    (name : String) (cd : ClusterDiagnosis) (items : List ClusterDiagnosis)
    → (matches name items ≡ cd ∷ []) ↔ IsOnly name cd items
matches-IsOnly name cd items = (
  λ h.
      (let r = select-Place (λ (item : ClusterDiagnosis). item.metadata.name == name) cd items h in
        record {
          before = r.before;
          after = r.after;
          place = r.place;
          has_name = (eq_iff cd.metadata.name name).0 r.passes;
          others_before = r.others_before;
          others_after = r.others_after;
        }),
  λ r.
      Place-select (λ (item : ClusterDiagnosis). item.metadata.name == name) cd items
        record {
          before = r.before;
          after = r.after;
          place = r.place;
          passes = (eq_iff cd.metadata.name name).1 r.has_name;
          others_before = r.others_before;
          others_after = r.others_after;
        },
)

single_match-ok :
    (quote : String → String) (name : String) (cd : ClusterDiagnosis)
    (found : List ClusterDiagnosis)
    → (single_match quote name found ≡ ok cd) ↔ (found ≡ cd ∷ [])
unfolding single_match
single_match-ok quote name cd [] = ground arith
single_match-ok quote name cd (m ∷ []) = ground arith
single_match-ok quote name cd (m ∷ n ∷ ms) = ground arith

-- Without a namespace, resolveDiagnosis answers with a diagnosis exactly if it is the one of the
-- listed diagnoses that has the name.
pub resolve_diagnosis-IsOnly :
    {S : Type 0} (cluster : Cluster S) (name : String) (cd : ClusterDiagnosis)
    (list : ClusterDiagnosisList) (c : Console S)
    → (cluster.list none c.state).0 ≡ ok list
    → ((resolve_diagnosis cluster "" name c).0 ≡ ok cd) ↔ IsOnly name cd list.items
unfolding resolve_diagnosis resolve_anywhere
resolve_diagnosis-IsOnly cluster name cd list c h =
    let a = matches-IsOnly name cd list.items in
    let b = single_match-ok cluster.quote name cd (matches name list.items) in
    let e : (resolve_diagnosis cluster "" name c).0
        ≡ single_match cluster.quote name (matches name list.items) =
      rw h refl in
    (λ k. a.0 (b.0 (sym e ∙ k)), λ only. e ∙ b.1 (a.1 only))
