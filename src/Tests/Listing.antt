-- ===== src/Tests/Listing.antt =====
-- The theorems on the list of diagnoses at a cluster with two of them.
use mathlib.Core.Logic.Or
use package.text.Mathlib.TextEquality.{IsScalar-prop}
use mathlib.Core.List.Perm
use mathlib.Core.List.{Perm, reverse_perm, reverse, Mem, mem-cons, not-mem-nil}
use k8s_health_ai.Prelude.{
  ℕ, ◌+◌, ◌*◌, ◌/◌, ◌%◌, ◌^◌, ◌≡◌, ◌≢◌, ◌⊎◌, ◌↔◌, ◌<>◌, Bool, refl, ap, sym, ◌∙◌, inl, inr, String,
  none, some, Outcome, ok, err, List, [], ◌∷◌, arith, str_ne,
}
use k8s_health_ai.Go.Sort.{SortLaws}
use k8s_health_ai.Go.Sort.Insertion.{insertion_sort, insertion_sort-SortLaws}
use k8s_health_ai.Go.Time.{with_minutes}
use k8s_health_ai.Api.{ClusterDiagnosis}
use k8s_health_ai.Diagctl.Listing.{in_front, age_text}
use k8s_health_ai.Diagctl.Listing.Order.{IsSameObject, IsListed, sort-in_front}
use k8s_health_ai.Diagctl.Listing.Age.{nearest_second, seconds_left, age_text-seconds_left}
use k8s_health_ai.Go.Flag.{Flags, text}
use k8s_health_ai.Tests.Cli.{web, queue, both}

seventy_seconds : age_text (70 * 10 ^ 9) ≡ "1m1 ago"
unfolding age_text
seventy_seconds = refl

half_a_minute : age_text (30 * 10 ^ 9) ≡ "30s ago"
unfolding age_text
half_a_minute = refl

-- an age of 70 seconds
age_text-seconds_left_example :
    age_text (70 * 10 ^ 9)
    ≡ (with_minutes (nearest_second (70 * 10 ^ 9) / 60) ""
        <> seconds_left (nearest_second (70 * 10 ^ 9) % 60))
      <> " ago"
age_text-seconds_left_example = age_text-seconds_left (70 * 10 ^ 9) (omega arith) (omega arith)

diagnosis_set : IsSet ClusterDiagnosis
diagnosis_set = hlevel (IsScalar-prop)

name_of :
    (a b x y : ClusterDiagnosis)
    → a ≡ x
    → b ≡ y
    → a.metadata.name ≡ b.metadata.name
    → x.metadata.name ≡ y.metadata.name
name_of a b x y e f h =
    sym (ap (λ (cd : ClusterDiagnosis). cd.metadata.name) e)
    ∙ h
    ∙ ap (λ (cd : ClusterDiagnosis). cd.metadata.name) f

-- one of the two diagnoses that has the name of another of them is that one
same_as : (a b : ClusterDiagnosis) → Mem b both → IsSameObject a b → (a ≡ web) ⊎ (a ≡ queue) → a ≡ b
same_as a b n same which =
    Or.elim (diagnosis_set a b) (mem-cons.0 n)
      (λ f. elim which [
        | inl e ↦ e ∙ sym f
        | inr e ↦ absurd (str_ne {s = "queue"} {t = "web"} refl (name_of a b queue web e f same.1))
      ])
      λ n'.
        Or.elim (diagnosis_set a b) (mem-cons.0 n')
          (λ f. elim which [
            | inl e ↦
                absurd (str_ne {s = "web"} {t = "queue"} refl (name_of a b web queue e f same.1))
            | inr e ↦ e ∙ sym f
          ])
          λ n''. absurd (not-mem-nil n'')

-- the two diagnoses have different names
both_distinct : (a b : ClusterDiagnosis) → Mem a both → Mem b both → IsSameObject a b → a ≡ b
both_distinct a b m n same =
    Or.elim (diagnosis_set a b) (mem-cons.0 m) (λ e. same_as a b n same (inl e))
      λ m'.
        Or.elim (diagnosis_set a b) (mem-cons.0 m') (λ e. same_as a b n same (inr e))
          λ m''. absurd (not-mem-nil m'')

-- another sort that keeps the promises: it takes the items from the end
abbrev sort_from_end :
    (ClusterDiagnosis → ClusterDiagnosis → Bool) → List ClusterDiagnosis → List ClusterDiagnosis
sort_from_end less items = insertion_sort less (reverse items)

sort_from_end-SortLaws : SortLaws sort_from_end
sort_from_end-SortLaws = record {
  permutes = λ less items.
      Perm.trans (insertion_sort-SortLaws.permutes less (reverse items)) (reverse_perm items);
  ordered = λ less weak items. insertion_sort-SortLaws.ordered less weak (reverse items);
}

sort-in_front_example :
    (Perm (queue ∷ web ∷ []) both × IsListed (queue ∷ web ∷ []))
    ↔ (queue ∷ web ∷ [] ≡ sort_from_end in_front both)
sort-in_front_example =
    sort-in_front sort_from_end sort_from_end-SortLaws both both_distinct (queue ∷ web ∷ [])

abbrev shop_flags : Flags
shop_flags = ("n", text "shop") ∷ ("o", text "text") ∷ []
