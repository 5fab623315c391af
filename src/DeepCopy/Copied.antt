-- ===== src/DeepCopy/Copied.antt =====
-- api/v1alpha1/zz_generated.deepcopy.go: a deep copy has the value of its original, and shares
-- nothing with it.
use k8s_health_ai.Prelude.{◌≡◌, refl, List, [], ◌∷◌}
use k8s_health_ai.Api.{Condition}
use k8s_health_ai.DeepCopy.{
  MetaChange, Library, Memory, Stored, copy_conditions, copy_spec, copy_status, copy_diagnosis,
  assemble, value_of,
}
use k8s_health_ai.DeepCopy.Cells.{read, copy_pointer, IsIn, Grows-refl, copy_pointer-PointerCopied}
use k8s_health_ai.DeepCopy.Separate.{
  Separate, IsIn-longer, copy_pointer-Separate, Separate-later, kept,
}

module _ {M N : Type 0} where
  -- What the library promises: a copy of an object is an object with the value of the original, no
  -- object changes by it, a write through the copy is not seen in the original nor one through the
  -- original in the copy, and a condition is copied as it is.
  pub record LibraryLaws (lib : Library M N) (IsMeta : N → M → Type 0) : Type 0 where
    pub copied :
        (n : N) (x : M)
        → IsMeta n x
        → lib.read_meta (lib.copy_meta n x).1 (lib.copy_meta n x).0 ≡ lib.read_meta n x
    pub keeps :
        (n : N) (x y : M) → IsMeta n y → lib.read_meta (lib.copy_meta n x).1 y ≡ lib.read_meta n y
    pub inside : (n : N) (x : M) → IsMeta n x → IsMeta (lib.copy_meta n x).1 (lib.copy_meta n x).0
    pub stays : (n : N) (x y : M) → IsMeta n y → IsMeta (lib.copy_meta n x).1 y
    pub copy_written :
        (n : N) (x : M) (ch : MetaChange)
        → IsMeta n x
        → lib.read_meta (lib.change_meta ch (lib.copy_meta n x).0 (lib.copy_meta n x).1) x
          ≡ lib.read_meta n x
    pub original_written :
        (n : N) (x : M) (ch : MetaChange)
        → IsMeta n x
        → lib.read_meta (lib.change_meta ch x (lib.copy_meta n x).1) (lib.copy_meta n x).0
          ≡ lib.read_meta n x
    pub condition : (c : Condition) → lib.copy_condition c ≡ c

  -- Every pointer and slice of the object is nil or in the memory.
  pub record IsValid (IsMeta : N → M → Type 0) (m : Memory N) (cd : Stored M) : Type 0 where
    pub metadata : IsMeta m.library cd.metadata
    pub collected_at : IsIn m.times cd.spec.collected_at
    pub last_updated : IsIn m.times cd.status.last_updated
    pub conditions : IsIn m.conditions cd.status.conditions
    pub resource_usage : IsIn m.usages cd.status.resource_usage
    pub remediations : IsIn m.texts cd.status.remediations

  module _ (lib : Library M N) (IsMeta : N → M → Type 0) (laws : LibraryLaws lib IsMeta)
      (m : Memory N) (cd : Stored M) (valid : IsValid IsMeta m cd) where
    -- the memory behind the copy, and the copy
    abbrev pub behind : Memory N
    behind = (copy_diagnosis lib m cd).1

    abbrev pub out : Stored M
    out = (copy_diagnosis lib m cd).0

    -- each pointer of the object, and that of the copy
    pub record Fields : Type 0 where
      pub meta : lib.read_meta behind.library out.metadata ≡ lib.read_meta m.library cd.metadata
      pub meta_kept : lib.read_meta behind.library cd.metadata ≡ lib.read_meta m.library cd.metadata
      pub copy_written :
          (ch : MetaChange)
          → lib.read_meta (lib.change_meta ch out.metadata behind.library) cd.metadata
            ≡ lib.read_meta m.library cd.metadata
      pub original_written :
          (ch : MetaChange)
          → lib.read_meta (lib.change_meta ch cd.metadata behind.library) out.metadata
            ≡ lib.read_meta m.library cd.metadata
      pub collected_at : Separate m.times behind.times cd.spec.collected_at out.spec.collected_at
      pub last_updated :
          Separate m.times behind.times cd.status.last_updated out.status.last_updated
      pub conditions :
          Separate m.conditions behind.conditions cd.status.conditions out.status.conditions
      pub resource_usage :
          Separate m.usages behind.usages cd.status.resource_usage out.status.resource_usage
      pub remediations :
          Separate m.texts behind.texts cd.status.remediations out.status.remediations

    map_id : (cs : List Condition) → copy_conditions lib cs ≡ cs
    map_id [] = refl
    map_id (c ∷ cs) = rw (laws.condition c, map_id cs) refl

    pub copied_fields : Fields
    unfolding copy_diagnosis copy_spec copy_status
    copied_fields =
        let t1 =
          copy_pointer-Separate (λ t. t) (λ t. refl) m.times m.times cd.spec.collected_at
            (Grows-refl m.times) valid.collected_at in
        let times = (copy_pointer (λ t. t) m.times cd.spec.collected_at).1 in
        let t2 =
          copy_pointer-PointerCopied (λ t. t) times cd.status.last_updated
            (IsIn-longer m.times times cd.status.last_updated t1.grows.longer valid.last_updated) in
        record {
          meta = laws.copied m.library cd.metadata valid.metadata;
          meta_kept = laws.keeps m.library cd.metadata cd.metadata valid.metadata;
          copy_written = λ ch. laws.copy_written m.library cd.metadata ch valid.metadata;
          original_written = λ ch. laws.original_written m.library cd.metadata ch valid.metadata;
          collected_at = Separate-later m.times times _ cd.spec.collected_at _ t1 t2.grows;
          last_updated =
              copy_pointer-Separate (λ t. t) (λ t. refl) m.times times cd.status.last_updated
                t1.grows valid.last_updated;
          conditions =
              copy_pointer-Separate (copy_conditions lib) map_id m.conditions m.conditions
                cd.status.conditions (Grows-refl m.conditions) valid.conditions;
          resource_usage =
              copy_pointer-Separate (λ u. u) (λ u. refl) m.usages m.usages cd.status.resource_usage
                (Grows-refl m.usages) valid.resource_usage;
          remediations =
              copy_pointer-Separate (λ u. u) (λ u. refl) m.texts m.texts cd.status.remediations
                (Grows-refl m.texts) valid.remediations;
        }

    -- what is read of the original's fields is read here of `x`
    abbrev pub Reads : Memory N → Stored M → Type 0
    Reads m1 x =
        (lib.read_meta m1.library x.metadata ≡ lib.read_meta m.library cd.metadata)
        × (read m1.times x.spec.collected_at ≡ read m.times cd.spec.collected_at)
        × (read m1.times x.status.last_updated ≡ read m.times cd.status.last_updated)
        × (read m1.conditions x.status.conditions ≡ read m.conditions cd.status.conditions)
        × (read m1.usages x.status.resource_usage ≡ read m.usages cd.status.resource_usage)
        × (read m1.texts x.status.remediations ≡ read m.texts cd.status.remediations)

    pub Reads-original : (m1 : Memory N) → Reads m1 cd → value_of lib m1 cd ≡ value_of lib m cd
    unfolding value_of
    Reads-original m1 (a, b, c, d, e, f) = λ i. assemble lib cd (a i) (b i) (c i) (d i) (e i) (f i)

    pub Reads-copy : (m1 : Memory N) → Reads m1 out → value_of lib m1 out ≡ value_of lib m cd
    unfolding value_of copy_diagnosis copy_spec copy_status
    Reads-copy m1 (a, b, c, d, e, f) = λ i. assemble lib cd (a i) (b i) (c i) (d i) (e i) (f i)

    -- A deep copy has the value of its original, whose own value does not change by it.
    pub copy_diagnosis-value_of :
        (value_of lib behind out ≡ value_of lib m cd) × (value_of lib behind cd ≡ value_of lib m cd)
    copy_diagnosis-value_of =
        let f = copied_fields in
        (
          Reads-copy _ (
            f.meta, f.collected_at.copied, f.last_updated.copied, f.conditions.copied,
            f.resource_usage.copied, f.remediations.copied,
          ),
          Reads-original _ (
            f.meta_kept,
            kept f.collected_at,
            kept f.last_updated,
            kept f.conditions,
            kept f.resource_usage,
            kept f.remediations,
          ),
        )
