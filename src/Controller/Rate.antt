-- ===== src/Controller/Rate.antt =====
-- internal/controller/pod_controller.go: the test of the annotation last-llm-call.
pub mod Window
use k8s_health_ai.Prelude.{
  ℕ, ◌*◌, ◌^◌, String, Bool, true, false, Option, none, some, List, ◌==◌, if◌then◌else◌,
}
use k8s_health_ai.Prelude.Int.{ℤ, sub_ℕ, wrap, saturate, minus, less_than}
use k8s_health_ai.Api.{ClusterDiagnosis, lookup}

abbrev pub last_llm_call_annotation : String
last_llm_call_annotation = "health.k8sai.io/last-llm-call"

-- 5 * time.Minute, in nanoseconds
abbrev pub min_between_llm : ℕ
min_between_llm = 5 * 60 * 10 ^ 9

-- a key of a map that may be nil: "" where it is missing
unfoldable pub annotation : String → Option (List (String × String)) → String
annotation key none = ""
annotation key (some m) = elim (lookup key m) [ none ↦ "" | some v ↦ v ]

-- time.Since(ts) at the instant `now`: an int64 that saturates
unfoldable pub since : ℕ → ℕ → ℤ
since now ts = saturate (sub_ℕ now ts)

-- `minBetweenLLM - elapsed`, an int64 that wraps around
unfoldable pub remaining : ℤ → ℤ
remaining elapsed = wrap (minus min_between_llm elapsed)

-- The delay to requeue after, or `none` to go on.
unfoldable pub requeue_delay : ℕ → Option ℕ → Option ℤ
unfolding since remaining
requeue_delay now none = none
requeue_delay now (some ts) =
    let elapsed = since now ts in
    if less_than elapsed min_between_llm then some (remaining elapsed) else none

-- the text of the annotation that holds the time of the last LLM call
unfoldable pub last_llm_call : ClusterDiagnosis → String
unfolding annotation
last_llm_call cd = annotation last_llm_call_annotation cd.metadata.annotations
