-- ===== src/DeepCopy/Lists.antt =====
-- api/v1alpha1/zz_generated.deepcopy.go: the deep copy of a list of diagnoses.
use mathlib.Core.Path.{ap₂}
use k8s_health_ai.Prelude.{◌≡◌, refl, ◌∙◌, List, [], ◌∷◌, map, All}
use k8s_health_ai.Api.{ClusterDiagnosis}
use k8s_health_ai.DeepCopy.{
  Library, Memory, Stored, copy_spec, copy_status, copy_diagnosis, copy_items, value_of,
}
use k8s_health_ai.DeepCopy.Cells.{Grows, Grows-refl}
use k8s_health_ai.DeepCopy.Separate.{Grows-trans, IsIn-longer}
use k8s_health_ai.DeepCopy.Copied.{
  LibraryLaws, IsValid, copied_fields, Reads-original, copy_diagnosis-value_of,
}

module _ {M N : Type 0} (lib : Library M N) (IsMeta : N → M → Type 0)
    (laws : LibraryLaws lib IsMeta) where
  -- `m'` holds what `m` held.
  record Later (m m' : Memory N) : Type 0 where
    objects : (x : M) → IsMeta m.library x → IsMeta m'.library x
    same : (x : M) → IsMeta m.library x → lib.read_meta m'.library x ≡ lib.read_meta m.library x
    times : Grows m.times m'.times
    conditions : Grows m.conditions m'.conditions
    usages : Grows m.usages m'.usages
    texts : Grows m.texts m'.texts

  Later-refl : (m : Memory N) → Later m m
  Later-refl m = record {
    objects = λ x h. h;
    same = λ x h. refl;
    times = Grows-refl m.times;
    conditions = Grows-refl m.conditions;
    usages = Grows-refl m.usages;
    texts = Grows-refl m.texts;
  }

  Later-trans : (m m' m'' : Memory N) → Later m m' → Later m' m'' → Later m m''
  Later-trans m m' m'' a b = record {
    objects = λ x h. b.objects x (a.objects x h);
    same = λ x h. b.same x (a.objects x h) ∙ a.same x h;
    times = Grows-trans _ _ _ a.times b.times;
    conditions = Grows-trans _ _ _ a.conditions b.conditions;
    usages = Grows-trans _ _ _ a.usages b.usages;
    texts = Grows-trans _ _ _ a.texts b.texts;
  }

  IsValid-Later :
      (m m' : Memory N) (cd : Stored M) → Later m m' → IsValid IsMeta m cd → IsValid IsMeta m' cd
  IsValid-Later m m' cd l v = record {
    metadata = l.objects cd.metadata v.metadata;
    collected_at = IsIn-longer m.times m'.times cd.spec.collected_at l.times.longer v.collected_at;
    last_updated =
        IsIn-longer m.times m'.times cd.status.last_updated l.times.longer v.last_updated;
    conditions =
        IsIn-longer m.conditions m'.conditions cd.status.conditions l.conditions.longer
          v.conditions;
    resource_usage =
        IsIn-longer m.usages m'.usages cd.status.resource_usage l.usages.longer v.resource_usage;
    remediations =
        IsIn-longer m.texts m'.texts cd.status.remediations l.texts.longer v.remediations;
  }

  value_of-Later :
      (m m' : Memory N) (cd : Stored M)
      → Later m m'
      → IsValid IsMeta m cd
      → value_of lib m' cd ≡ value_of lib m cd
  value_of-Later m m' cd l v = Reads-original lib IsMeta laws m cd v m' (
    l.same cd.metadata v.metadata,
    l.times.keeps _ v.collected_at,
    l.times.keeps _ v.last_updated,
    l.conditions.keeps _ v.conditions,
    l.usages.keeps _ v.resource_usage,
    l.texts.keeps _ v.remediations,
  )

  copy_diagnosis-Later :
      (m : Memory N) (cd : Stored M) → IsValid IsMeta m cd → Later m (copy_diagnosis lib m cd).1
  unfolding copy_diagnosis copy_spec copy_status
  copy_diagnosis-Later m cd v =
      let f = copied_fields lib IsMeta laws m cd v in
      record {
        objects = λ x h. laws.stays m.library cd.metadata x h;
        same = λ x h. laws.keeps m.library cd.metadata x h;
        times = f.collected_at.grows;
        conditions = f.conditions.grows;
        usages = f.resource_usage.grows;
        texts = f.remediations.grows;
      }

  copy_diagnosis-IsValid :
      (m : Memory N) (cd : Stored M)
      → IsValid IsMeta m cd
      → IsValid IsMeta (copy_diagnosis lib m cd).1 (copy_diagnosis lib m cd).0
  unfolding copy_diagnosis copy_spec copy_status
  copy_diagnosis-IsValid m cd v =
      let f = copied_fields lib IsMeta laws m cd v in
      record {
        metadata = laws.inside m.library cd.metadata v.metadata;
        collected_at = f.collected_at.inside;
        last_updated = f.last_updated.inside;
        conditions = f.conditions.inside;
        resource_usage = f.resource_usage.inside;
        remediations = f.remediations.inside;
      }

  -- the values of objects, one by one
  abbrev pub values_of : Memory N → List (Stored M) → List ClusterDiagnosis
  values_of m = map (value_of lib m)

  values_of-Later :
      (m m' : Memory N) (cds : List (Stored M))
      → Later m m'
      → All (IsValid IsMeta m) cds
      → values_of m' cds ≡ values_of m cds
  values_of-Later m m' [] l v = refl
  values_of-Later m m' (cd ∷ cds) l (v, vs) =
      ap₂ ◌∷◌ (value_of-Later m m' cd l v) (values_of-Later m m' cds l vs)

  All-Later :
      (m m' : Memory N) (cds : List (Stored M))
      → Later m m'
      → All (IsValid IsMeta m) cds
      → All (IsValid IsMeta m') cds
  All-Later m m' [] l v = tt
  All-Later m m' (cd ∷ cds) l (v, vs) = (IsValid-Later m m' cd l v, All-Later m m' cds l vs)

  copy_items-Later :
      (m : Memory N) (cds : List (Stored M))
      → All (IsValid IsMeta m) cds
      → Later m (copy_items lib m cds).1
  unfolding copy_items
  copy_items-Later m [] v = Later-refl m
  copy_items-Later m (cd ∷ cds) (v, vs) =
      let m1 = (copy_diagnosis lib m cd).1 in
      let l = copy_diagnosis-Later m cd v in
      Later-trans m m1 _ l (copy_items-Later m1 cds (All-Later m m1 cds l vs))

  copies :
      (m : Memory N) (cds : List (Stored M))
      → All (IsValid IsMeta m) cds
      → values_of (copy_items lib m cds).1 (copy_items lib m cds).0 ≡ values_of m cds
  unfolding copy_items
  copies m [] v = refl
  copies m (cd ∷ cds) (v, vs) =
      let m1 = (copy_diagnosis lib m cd).1 in
      let l = copy_diagnosis-Later m cd v in
      let vs1 = All-Later m m1 cds l vs in
      ap₂ ◌∷◌
        (value_of-Later m1 _ _ (copy_items-Later m1 cds vs1) (copy_diagnosis-IsValid m cd v)
          ∙ (copy_diagnosis-value_of lib IsMeta laws m cd v).0)
        (copies m1 cds vs1 ∙ values_of-Later m m1 cds l vs)

  -- The deep copies of the items of a list have the values of the originals, in their order, and
  -- the originals' own values do not change by it.
  pub copy_items-values_of :
      (m : Memory N) (cds : List (Stored M))
      → All (IsValid IsMeta m) cds
      → (values_of (copy_items lib m cds).1 (copy_items lib m cds).0 ≡ values_of m cds)
        × (values_of (copy_items lib m cds).1 cds ≡ values_of m cds)
  copy_items-values_of m cds v =
      (copies m cds v, values_of-Later m _ cds (copy_items-Later m cds v) v)
