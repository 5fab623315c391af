-- ===== src/DeepCopy.antt =====
-- api/v1alpha1/zz_generated.deepcopy.go: the deep copies of the API types. Objects stand in a
-- memory, and a pointer or a slice of theirs is an address in it; nil is `none`. ObjectMeta,
-- ListMeta and Condition are the library's, and so are their copies.
pub mod Cells
pub mod Separate
pub mod Copied
pub mod Apart
pub mod Lists
use k8s_health_ai.Prelude.{ℕ, String, Option, none, some, List, [], ◌∷◌, map, Outcome, ok}
use k8s_health_ai.Api.{
  TargetRef, ResourceUsage, Condition, ObjectMeta, ListMeta, ClusterDiagnosisSpec,
  ClusterDiagnosisStatus, ClusterDiagnosis,
}
use k8s_health_ai.DeepCopy.Cells.{Address, Store, read, copy_pointer, write_through}

-- What a program may do through the maps and slices of an ObjectMeta: set a key of its annotations,
-- or replace its owner references.
pub data MetaChange : Type 0 where
  set_annotation : String → String → MetaChange
  set_owner_references : List TargetRef → MetaChange

-- The library's ObjectMeta: objects of a type `M` in a memory of a type `N`, with their copy and the
-- writes through them, and the copy of a condition.
pub record Library (M N : Type 0) : Type 0 where
  pub read_meta : N → M → ObjectMeta
  pub copy_meta : N → M → M × N
  pub change_meta : MetaChange → M → N → N
  pub copy_condition : Condition → Condition
  pub copy_list_meta : ListMeta → ListMeta

-- the targets of the pointers, and the arrays of the slices
pub record Memory (N : Type 0) : Type 0 where
  pub library : N
  pub times : Store ℕ
  pub usages : Store ResourceUsage
  pub conditions : Store (List Condition)
  pub texts : Store (List String)

pub record StoredSpec : Type 0 where
  pub target_ref : TargetRef
  pub failure_type : String
  pub collected_at : Option Address

pub record StoredStatus : Type 0 where
  pub phase : String
  pub root_cause : String
  pub severity : String
  pub recommended_fix : String
  pub model : String
  pub last_updated : Option Address
  pub conditions : Option Address
  pub message : String
  pub observed_fingerprint : String
  pub resource_usage : Option Address
  pub remediations : Option Address

pub record Stored (M : Type 0) : Type 0 where
  pub metadata : M
  pub spec : StoredSpec
  pub status : StoredStatus

-- A list of objects; `items`, which may be nil, is its array, which nothing else holds.
pub record StoredList (M : Type 0) : Type 0 where
  pub metadata : ListMeta
  pub items : Option (List (Stored M))

-- a nil slice has no items
abbrev items_or_none : {A : Type 0} → Option (List A) → List A
items_or_none none = []
items_or_none (some xs) = xs

module _ {M N : Type 0} (lib : Library M N) where
  -- TargetRef.DeepCopyInto and ResourceUsage.DeepCopyInto: `*out = *in`
  abbrev pub copy_target_ref : TargetRef → TargetRef
  copy_target_ref target = target

  abbrev pub copy_resource_usage : ResourceUsage → ResourceUsage
  copy_resource_usage usage = usage

  -- the loop over the conditions
  abbrev pub copy_conditions : List Condition → List Condition
  copy_conditions = map lib.copy_condition

  -- ClusterDiagnosisSpec.DeepCopyInto
  unfoldable pub copy_spec : Memory N → StoredSpec → StoredSpec × Memory N
  copy_spec m spec =
      let (collected_at, times) = copy_pointer (λ t. t) m.times spec.collected_at in
      (
        record spec { target_ref = copy_target_ref spec.target_ref; collected_at = collected_at },
        record m { times = times },
      )

  -- ClusterDiagnosisStatus.DeepCopyInto
  unfoldable pub copy_status : Memory N → StoredStatus → StoredStatus × Memory N
  copy_status m status =
      let (last_updated, times) = copy_pointer (λ t. t) m.times status.last_updated in
      let (conditions, arrays) = copy_pointer copy_conditions m.conditions status.conditions in
      let (resource_usage, usages) =
        copy_pointer copy_resource_usage m.usages status.resource_usage in
      let (remediations, texts) = copy_pointer (λ ss. ss) m.texts status.remediations in
      (
        record status {
          last_updated = last_updated;
          conditions = conditions;
          resource_usage = resource_usage;
          remediations = remediations;
        },
        record m { times = times; conditions = arrays; usages = usages; texts = texts },
      )

  -- ClusterDiagnosis.DeepCopyInto
  unfoldable pub copy_diagnosis : Memory N → Stored M → Stored M × Memory N
  unfolding copy_spec copy_status
  copy_diagnosis m cd =
      let (metadata, library) = lib.copy_meta m.library cd.metadata in
      let (spec, m1) = copy_spec (record m { library = library }) cd.spec in
      let (status, m2) = copy_status m1 cd.status in
      (record { metadata = metadata; spec = spec; status = status }, m2)

  -- DeepCopy, and DeepCopyObject, where a nil pointer is a nil interface
  unfoldable pub deep_copy : Memory N → Option (Stored M) → Option (Stored M) × Memory N
  unfolding copy_diagnosis
  deep_copy m none = (none, m)
  deep_copy m (some cd) = let (out, m') = copy_diagnosis m cd in (some out, m')

  -- the loop over the items of a list
  unfoldable pub copy_items : Memory N → List (Stored M) → List (Stored M) × Memory N
  unfolding copy_diagnosis
  copy_items m [] = ([], m)
  copy_items m (cd ∷ cds) =
      let (out, m1) = copy_diagnosis m cd in let (outs, m2) = copy_items m1 cds in (out ∷ outs, m2)

  unfoldable pub copy_slice :
      Memory N → Option (List (Stored M)) → Option (List (Stored M)) × Memory N
  unfolding copy_items
  copy_slice m none = (none, m)
  copy_slice m (some cds) = let (outs, m') = copy_items m cds in (some outs, m')

  -- ClusterDiagnosisList.DeepCopyInto
  unfoldable pub copy_list : Memory N → StoredList M → StoredList M × Memory N
  unfolding copy_slice
  copy_list m list =
      let (items, m') = copy_slice m list.items in
      (record { metadata = lib.copy_list_meta list.metadata; items = items }, m')

  -- DeepCopy, and DeepCopyObject, of a list
  unfoldable pub deep_copy_list :
      Memory N → Option (StoredList M) → Option (StoredList M) × Memory N
  unfolding copy_list
  deep_copy_list m none = (none, m)
  deep_copy_list m (some list) = let (out, m') = copy_list m list in (some out, m')

  -- the value with the fields of an object that are no pointers, and these others
  abbrev pub assemble :
      Stored M
      → ObjectMeta
      → Option ℕ
      → Option ℕ
      → Option (List Condition)
      → Option ResourceUsage
      → Option (List String)
      → ClusterDiagnosis
  assemble cd metadata collected_at last_updated conditions resource_usage remediations = record {
    metadata = metadata;
    spec = record {
      target_ref = cd.spec.target_ref;
      failure_type = cd.spec.failure_type;
      collected_at = collected_at;
    };
    status = record {
      phase = cd.status.phase;
      root_cause = cd.status.root_cause;
      severity = cd.status.severity;
      recommended_fix = cd.status.recommended_fix;
      model = cd.status.model;
      last_updated = last_updated;
      conditions = items_or_none conditions;
      message = cd.status.message;
      observed_fingerprint = cd.status.observed_fingerprint;
      resource_usage = resource_usage;
      remediations = items_or_none remediations;
    };
  }

  -- the value that an object stands for
  unfoldable pub value_of : Memory N → Stored M → ClusterDiagnosis
  unfolding read
  value_of m cd =
      assemble cd (lib.read_meta m.library cd.metadata) (read m.times cd.spec.collected_at)
        (read m.times cd.status.last_updated) (read m.conditions cd.status.conditions)
        (read m.usages cd.status.resource_usage) (read m.texts cd.status.remediations)

-- What a program may do through the pointers, maps and slices of an object, its ObjectMeta included.
pub data Change : Type 0 where
  set_metadata : MetaChange → Change
  set_collected_at set_last_updated : ℕ → Change
  set_resource_usage : ResourceUsage → Change
  set_conditions : List Condition → Change
  set_remediations : List String → Change

module _ {M N : Type 0} (lib : Library M N) where
  unfoldable pub change : Change → Stored M → Memory N → Memory N
  change (set_metadata ch) cd m = record m { library = lib.change_meta ch cd.metadata m.library }
  change (set_collected_at t) cd m = record m {
    times = write_through m.times cd.spec.collected_at t;
  }
  change (set_last_updated t) cd m = record m {
    times = write_through m.times cd.status.last_updated t;
  }
  change (set_resource_usage u) cd m = record m {
    usages = write_through m.usages cd.status.resource_usage u;
  }
  change (set_conditions cs) cd m = record m {
    conditions = write_through m.conditions cd.status.conditions cs;
  }
  change (set_remediations ss) cd m = record m {
    texts = write_through m.texts cd.status.remediations ss;
  }
