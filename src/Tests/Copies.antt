-- ===== src/Tests/Copies.antt =====
-- The theorems on deep copies at an object whose ObjectMeta stands in a memory, as its other parts do.
use k8s_health_ai.Prelude.{ℕ, ◌≡◌, refl, Option, none, some, String, List, [], ◌∷◌, arith}
use k8s_health_ai.Api.{ObjectMeta, TargetRef, insert}
use k8s_health_ai.DeepCopy.{
  MetaChange, set_annotation, set_owner_references, Library, Memory, Stored, copy_diagnosis,
  copy_items, value_of, change, set_metadata,
}
use k8s_health_ai.DeepCopy.Cells.{
  Address, Store, read, write_through, copy_pointer, IsIn, Grows-refl, copy_pointer-Grows,
}
use k8s_health_ai.DeepCopy.Separate.{
  Separate, IsIn-longer, copy_pointer-Separate, kept, old_unseen, new_unseen,
}
use k8s_health_ai.DeepCopy.Copied.{LibraryLaws, IsValid}
use k8s_health_ai.DeepCopy.Lists.{values_of, copy_items-values_of}
use k8s_health_ai.DeepCopy.Apart.{copy_diagnosis-change}
use k8s_health_ai.Tests.Runs.{fresh}

-- an ObjectMeta in memory, with the address of its map and that of its slice
record StoredMeta : Type 0 where
  name : String
  namespace : String
  annotations : Option Address
  owner_references : Option Address
  resource_version : String
  creation_timestamp : Option ℕ

record MetaMemory : Type 0 where
  maps : Store (List (String × String))
  references : Store (List TargetRef)

abbrev or_empty : {A : Type 0} → Option (List A) → List A
or_empty none = []
or_empty (some xs) = xs

abbrev meta_of : StoredMeta → Option (List (String × String)) → Option (List TargetRef) → ObjectMeta
meta_of x annotations owners = record {
  name = x.name;
  namespace = x.namespace;
  annotations = annotations;
  owner_references = or_empty owners;
  resource_version = x.resource_version;
  creation_timestamp = x.creation_timestamp;
}

abbrev write_meta : MetaChange → StoredMeta → MetaMemory → MetaMemory
write_meta (set_annotation key value) x n = record n {
  maps =
      write_through n.maps x.annotations (insert key value (or_empty (read n.maps x.annotations)));
}
write_meta (set_owner_references owners) x n = record n {
  references = write_through n.references x.owner_references owners;
}

abbrev library : Library StoredMeta MetaMemory
library = record {
  read_meta = λ n x. meta_of x (read n.maps x.annotations) (read n.references x.owner_references);
  copy_meta = λ n x. (
    record x {
      annotations = (copy_pointer (λ a. a) n.maps x.annotations).0;
      owner_references = (copy_pointer (λ o. o) n.references x.owner_references).0;
    },
    record {
      maps = (copy_pointer (λ a. a) n.maps x.annotations).1;
      references = (copy_pointer (λ o. o) n.references x.owner_references).1;
    },
  );
  change_meta = write_meta;
  copy_condition = λ c. c;
  copy_list_meta = λ l. l;
}

abbrev IsMeta : MetaMemory → StoredMeta → Type 0
IsMeta n x = IsIn n.maps x.annotations × IsIn n.references x.owner_references

copied_pointer :
    {A : Type 0}
    → (st : Store A) (p : Option Address) → IsIn st p
    → Separate st (copy_pointer (λ a. a) st p).1 p (copy_pointer (λ a. a) st p).0
copied_pointer st p i = copy_pointer-Separate (λ a. a) (λ a. refl) st st p (Grows-refl st) i

-- what was in the store before a copy is read there as before
keeps_pointer :
    {A : Type 0}
    → (st : Store A) (p q : Option Address) → IsIn st q
    → read (copy_pointer (λ a. a) st p).1 q ≡ read st q
keeps_pointer st p q i = (copy_pointer-Grows (λ a. a) st p).keeps q i

stays_pointer :
    {A : Type 0}
    → (st : Store A) (p q : Option Address) → IsIn st q
    → IsIn (copy_pointer (λ a. a) st p).1 q
stays_pointer st p q i = IsIn-longer st _ q (copy_pointer-Grows (λ a. a) st p).longer i

write_copy :
    (n : MetaMemory) (x : StoredMeta)
    → IsMeta n x
    → (ch : MetaChange)
    → library.read_meta (write_meta ch (library.copy_meta n x).0 (library.copy_meta n x).1) x
      ≡ library.read_meta n x
write_copy n x v (set_annotation key value) =
    let a = copied_pointer n.maps x.annotations v.0 in
    let o = copied_pointer n.references x.owner_references v.1 in
    let texts =
      insert key value
        (or_empty (read (library.copy_meta n x).1.maps (library.copy_meta n x).0.annotations)) in
    λ i. meta_of x (old_unseen _ _ _ _ _ _ texts a a i) (kept o i)
write_copy n x v (set_owner_references owners) =
    let a = copied_pointer n.maps x.annotations v.0 in
    let o = copied_pointer n.references x.owner_references v.1 in
    λ i. meta_of x (kept a i) (old_unseen _ _ _ _ _ _ owners o o i)

write_original :
    (n : MetaMemory) (x : StoredMeta)
    → IsMeta n x
    → (ch : MetaChange)
    → library.read_meta (write_meta ch x (library.copy_meta n x).1) (library.copy_meta n x).0
      ≡ library.read_meta n x
write_original n x v (set_annotation key value) =
    let a = copied_pointer n.maps x.annotations v.0 in
    let o = copied_pointer n.references x.owner_references v.1 in
    let texts = insert key value (or_empty (read (library.copy_meta n x).1.maps x.annotations)) in
    λ i. meta_of x (new_unseen _ _ _ _ _ _ texts a a i) (o.copied i)
write_original n x v (set_owner_references owners) =
    let a = copied_pointer n.maps x.annotations v.0 in
    let o = copied_pointer n.references x.owner_references v.1 in
    λ i. meta_of x (a.copied i) (new_unseen _ _ _ _ _ _ owners o o i)

library_laws : LibraryLaws library IsMeta
library_laws = record {
  copied = λ n x v i.
      meta_of x ((copied_pointer n.maps x.annotations v.0).copied i)
        ((copied_pointer n.references x.owner_references v.1).copied i);
  keeps = λ n x y v i.
      meta_of y (keeps_pointer n.maps x.annotations y.annotations v.0 i)
        (keeps_pointer n.references x.owner_references y.owner_references v.1 i);
  inside = λ n x v. (
    (copied_pointer n.maps x.annotations v.0).inside,
    (copied_pointer n.references x.owner_references v.1).inside,
  );
  stays = λ n x y v. (
    stays_pointer n.maps x.annotations y.annotations v.0,
    stays_pointer n.references x.owner_references y.owner_references v.1,
  );
  copy_written = λ n x ch v. write_copy n x v ch;
  original_written = λ n x ch v. write_original n x v ch;
  condition = λ c. refl;
}

abbrev heap : Memory MetaMemory
heap = record {
  library = record {
    maps = (("owner", "shop") ∷ []) ∷ [];
    references = fresh.metadata.owner_references ∷ [];
  };
  times = 5 ∷ 9 ∷ [];
  usages = [];
  conditions = (record { type = "Ready"; status = "True"; reason = ""; message = "" } ∷ []) ∷ [];
  texts = ("restart" ∷ []) ∷ [];
}

abbrev object : Stored StoredMeta
object = record {
  metadata = record {
    name = "web";
    namespace = "shop";
    annotations = some 0;
    owner_references = some 0;
    resource_version = "1";
    creation_timestamp = none;
  };
  spec = record {
    target_ref = fresh.spec.target_ref;
    failure_type = "OOMKilled";
    collected_at = some 0;
  };
  status = record {
    phase = "Ready";
    root_cause = "leak";
    severity = "high";
    recommended_fix = "raise the limit";
    model = "mock";
    last_updated = some 1;
    conditions = some 0;
    message = "";
    observed_fingerprint = "";
    resource_usage = none;
    remediations = some 0;
  };
}

object-IsValid : IsValid IsMeta heap object
object-IsValid = record {
  metadata = (omega arith, omega arith);
  collected_at = omega arith;
  last_updated = omega arith;
  conditions = omega arith;
  resource_usage = tt;
  remediations = omega arith;
}

copy_items-values_of_example :
    (values_of library IsMeta library_laws
        (copy_items library heap (object ∷ object ∷ [])).1
        (copy_items library heap (object ∷ object ∷ [])).0
      ≡ values_of library IsMeta library_laws heap (object ∷ object ∷ []))
    × (values_of library IsMeta library_laws
          (copy_items library heap (object ∷ object ∷ [])).1
          (object ∷ object ∷ [])
        ≡ values_of library IsMeta library_laws heap (object ∷ object ∷ []))
copy_items-values_of_example =
    copy_items-values_of library IsMeta library_laws heap (object ∷ object ∷ [])
      (object-IsValid, (object-IsValid, tt))

copy_diagnosis-change_example :
    (value_of library
        (change library
          (set_metadata (set_annotation "owner" "bank"))
          (copy_diagnosis library heap object).0
          (copy_diagnosis library heap object).1)
        object
      ≡ value_of library heap object)
    × (value_of library
          (change library
            (set_metadata (set_annotation "owner" "bank"))
            object
            (copy_diagnosis library heap object).1)
          (copy_diagnosis library heap object).0
        ≡ value_of library heap object)
copy_diagnosis-change_example =
    copy_diagnosis-change library IsMeta library_laws heap object object-IsValid
      (set_metadata (set_annotation "owner" "bank"))
