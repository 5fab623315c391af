-- ===== src/Tests/Texts.antt =====
-- The theorems on the parsing of an answer, on events and on texts at concrete values.
use k8s_health_ai.Prelude.{
  arith, ℕ, ◌+◌, ◌*◌, ◌≤◌, ◌<◌, ◌^◌, String, false, ◌≡◌, ◌⊎◌, ◌↔◌, refl, none, some, ok, ◌<>◌, [],
  ◌∷◌,
}
use k8s_health_ai.Prelude.Int.{ℤ, pos, int64_half, is_positive}
use k8s_health_ai.Go.Strings.{to_lower, trim_space, rune_count}
use k8s_health_ai.Go.Strings.Laws.{Lacks}
use k8s_health_ai.Go.Errors.{text_error}
use k8s_health_ai.Llm.{Diagnosis}
use k8s_health_ai.Go.Sort.Insertion.{insertion_sort, insertion_sort-SortLaws}
use k8s_health_ai.Llm.Parse.{embedded, normalize, parse_diagnosis_json}
use k8s_health_ai.Llm.Parse.Wrapped.{opening, closing, in_prose, parse_in_prose}
use k8s_health_ai.Collect.{trim_runes, summarize_events}
use k8s_health_ai.Collect.Usage.{trim_runes_lem}
use k8s_health_ai.Llm.Parse.Found.{Parsed, parse_diagnosis_json-Parsed}
use k8s_health_ai.Collect.Recent.{MostRecent, summarize_events-MostRecent}
use k8s_health_ai.Controller.Rate.{min_between_llm, requeue_delay}
use k8s_health_ai.Controller.Rate.Window.{requeue_delay_exact, requeue_delay_wraps}
use k8s_health_ai.Tests.Data.{old_event, new_event, diagnosis_of, unmarshal}

abbrev before : String
before = "Here is the diagnosis: "

abbrev body : String
body = "\"severity\": \"HIGH\""

abbrev after : String
after = " Hope this helps."

before-Lacks : Lacks opening before
before-Lacks = ground arith

after-Lacks : Lacks closing after
after-Lacks = ground arith

parse_in_prose_example :
    parse_diagnosis_json unmarshal (in_prose before body after)
    ≡ ok (normalize (diagnosis_of " HIGH "))
unfolding trim_space k8s_health_ai.Go.Strings.is_space k8s_health_ai.Go.Strings.keep_char
parse_in_prose_example =
    parse_in_prose unmarshal before body after (diagnosis_of " HIGH ")
      (text_error "invalid character") before-Lacks after-Lacks refl refl

abbrev plain : String
plain = " {\"severity\": \"HIGH\"}\n"

plain_test : parse_diagnosis_json unmarshal plain ≡ ok (diagnosis_of "high")
unfolding parse_diagnosis_json normalize trim_space to_lower k8s_health_ai.Llm.Parse.parse_trimmed
    k8s_health_ai.Go.Strings.is_space k8s_health_ai.Go.Strings.keep_char
plain_test = refl

prose_test :
    parse_diagnosis_json unmarshal (in_prose before body after)
    ≡ ok (normalize (diagnosis_of " HIGH "))
unfolding trim_space k8s_health_ai.Go.Strings.is_space k8s_health_ai.Go.Strings.keep_char
prose_test =
    parse_in_prose unmarshal before body after (diagnosis_of " HIGH ")
      (text_error "invalid character") before-Lacks after-Lacks refl refl

parse_diagnosis_json-Parsed_example :
    Parsed unmarshal (in_prose before body after) (normalize (diagnosis_of " HIGH "))
parse_diagnosis_json-Parsed_example =
    parse_diagnosis_json-Parsed unmarshal (in_prose before body after)
      {d = normalize (diagnosis_of " HIGH ")} prose_test

summarize_events-MostRecent_example :
    MostRecent
      (old_event ∷ new_event ∷ [])
      1
      (summarize_events insertion_sort (old_event ∷ new_event ∷ []) 1)
summarize_events-MostRecent_example =
    summarize_events-MostRecent insertion_sort insertion_sort-SortLaws (old_event ∷ new_event ∷ [])
      1

trim_runes_lem_example :
    ((rune_count "panic: nil" ≤ 5) × (trim_runes "panic: nil" 5 ≡ "panic: nil"))
    ⊎ ((kept : String) × (rest : String) × ("panic: nil" ≡ (kept <> rest))
        × (rune_count kept ≡ 5)
        × (0 < rune_count rest)
        × (trim_runes "panic: nil" 5 ≡ kept <> "\n... (truncated)"))
trim_runes_lem_example = trim_runes_lem "panic: nil" 5

-- a minute, in nanoseconds
abbrev minute : ℕ
minute = 60 * 10 ^ 9

requeue_delay_exact_example :
    (d : ℕ) × (requeue_delay (4 * minute) (some minute) ≡ some (pos d))
    × (0 < d)
    × (4 * minute + d ≡ minute + min_between_llm)
    × ((e : ℕ) → (requeue_delay (4 * minute + e) (some minute) ≡ none) ↔ (d ≤ e))
requeue_delay_exact_example = requeue_delay_exact (4 * minute) minute (omega arith) (omega arith)

requeue_delay_wraps_example :
    (z : ℤ) × (requeue_delay minute (some int64_half) ≡ some z) × (is_positive z ≡ false)
requeue_delay_wraps_example = requeue_delay_wraps minute int64_half (omega arith)
