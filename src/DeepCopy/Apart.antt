-- ===== src/DeepCopy/Apart.antt =====
-- api/v1alpha1/zz_generated.deepcopy.go: a deep copy shares nothing with its original.
use k8s_health_ai.Prelude.{◌≡◌}
use k8s_health_ai.DeepCopy.{
  Library, Memory, Stored, copy_diagnosis, value_of, Change, change, set_metadata, set_collected_at,
  set_last_updated, set_resource_usage, set_conditions, set_remediations,
}
use k8s_health_ai.DeepCopy.Separate.{kept, old_unseen, new_unseen}
use k8s_health_ai.DeepCopy.Copied.{LibraryLaws, IsValid, copied_fields, Reads-original, Reads-copy}

module _ {M N : Type 0} where
  module _ (lib : Library M N) (IsMeta : N → M → Type 0) (laws : LibraryLaws lib IsMeta)
      (m : Memory N) (cd : Stored M) (valid : IsValid IsMeta m cd) where
    -- What a program writes through the pointers, maps and slices of a deep copy, its ObjectMeta
    -- included, does not change the value of the original, and what it writes through those of the
    -- original does not change the value of the copy.
    pub copy_diagnosis-change :
        (ch : Change)
        → (value_of lib (change lib ch (copy_diagnosis lib m cd).0 (copy_diagnosis lib m cd).1) cd
            ≡ value_of lib m cd)
          × (value_of lib (change lib ch cd (copy_diagnosis lib m cd).1) (copy_diagnosis lib m cd).0
              ≡ value_of lib m cd)
    unfolding change
    copy_diagnosis-change (set_metadata ch) =
        let f = copied_fields lib IsMeta laws m cd valid in
        (
          Reads-original lib IsMeta laws m cd valid _ (
            f.copy_written ch,
            kept f.collected_at,
            kept f.last_updated,
            kept f.conditions,
            kept f.resource_usage,
            kept f.remediations,
          ),
          Reads-copy lib IsMeta laws m cd valid _ (
            f.original_written ch,
            f.collected_at.copied,
            f.last_updated.copied,
            f.conditions.copied,
            f.resource_usage.copied,
            f.remediations.copied,
          ),
        )
    copy_diagnosis-change (set_collected_at t) =
        let f = copied_fields lib IsMeta laws m cd valid in
        (
          Reads-original lib IsMeta laws m cd valid _ (
            f.meta_kept,
            old_unseen _ _ _ _ _ _ t f.collected_at f.collected_at,
            old_unseen _ _ _ _ _ _ t f.collected_at f.last_updated,
            kept f.conditions,
            kept f.resource_usage,
            kept f.remediations,
          ),
          Reads-copy lib IsMeta laws m cd valid _ (
            f.meta,
            new_unseen _ _ _ _ _ _ t f.collected_at f.collected_at,
            new_unseen _ _ _ _ _ _ t f.collected_at f.last_updated,
            f.conditions.copied,
            f.resource_usage.copied,
            f.remediations.copied,
          ),
        )
    copy_diagnosis-change (set_last_updated t) =
        let f = copied_fields lib IsMeta laws m cd valid in
        (
          Reads-original lib IsMeta laws m cd valid _ (
            f.meta_kept,
            old_unseen _ _ _ _ _ _ t f.last_updated f.collected_at,
            old_unseen _ _ _ _ _ _ t f.last_updated f.last_updated,
            kept f.conditions,
            kept f.resource_usage,
            kept f.remediations,
          ),
          Reads-copy lib IsMeta laws m cd valid _ (
            f.meta,
            new_unseen _ _ _ _ _ _ t f.last_updated f.collected_at,
            new_unseen _ _ _ _ _ _ t f.last_updated f.last_updated,
            f.conditions.copied,
            f.resource_usage.copied,
            f.remediations.copied,
          ),
        )
    copy_diagnosis-change (set_resource_usage u) =
        let f = copied_fields lib IsMeta laws m cd valid in
        (
          Reads-original lib IsMeta laws m cd valid _ (
            f.meta_kept,
            kept f.collected_at,
            kept f.last_updated,
            kept f.conditions,
            old_unseen _ _ _ _ _ _ u f.resource_usage f.resource_usage,
            kept f.remediations,
          ),
          Reads-copy lib IsMeta laws m cd valid _ (
            f.meta,
            f.collected_at.copied,
            f.last_updated.copied,
            f.conditions.copied,
            new_unseen _ _ _ _ _ _ u f.resource_usage f.resource_usage,
            f.remediations.copied,
          ),
        )
    copy_diagnosis-change (set_conditions cs) =
        let f = copied_fields lib IsMeta laws m cd valid in
        (
          Reads-original lib IsMeta laws m cd valid _ (
            f.meta_kept,
            kept f.collected_at,
            kept f.last_updated,
            old_unseen _ _ _ _ _ _ cs f.conditions f.conditions,
            kept f.resource_usage,
            kept f.remediations,
          ),
          Reads-copy lib IsMeta laws m cd valid _ (
            f.meta,
            f.collected_at.copied,
            f.last_updated.copied,
            new_unseen _ _ _ _ _ _ cs f.conditions f.conditions,
            f.resource_usage.copied,
            f.remediations.copied,
          ),
        )
    copy_diagnosis-change (set_remediations ss) =
        let f = copied_fields lib IsMeta laws m cd valid in
        (
          Reads-original lib IsMeta laws m cd valid _ (
            f.meta_kept,
            kept f.collected_at,
            kept f.last_updated,
            kept f.conditions,
            kept f.resource_usage,
            old_unseen _ _ _ _ _ _ ss f.remediations f.remediations,
          ),
          Reads-copy lib IsMeta laws m cd valid _ (
            f.meta,
            f.collected_at.copied,
            f.last_updated.copied,
            f.conditions.copied,
            f.resource_usage.copied,
            new_unseen _ _ _ _ _ _ ss f.remediations f.remediations,
          ),
        )
