-- ===== src/Llm/Parse.antt =====
-- internal/llm/provider.go: ParseDiagnosisJSON and normalize. `unmarshal` is json.Unmarshal into a
-- Diagnosis.
pub mod Severity
pub mod Wrapped
pub mod Found
use k8s_health_ai.Prelude.{
  ℕ, ◌+◌, String, Bool, ◌||◌, Option, none, some, Outcome, ok, err, ◌==◌, ltb, if◌then◌else◌,
}
use k8s_health_ai.Go.Strings.{trim_space, to_lower, index, last_index, slice}
use k8s_health_ai.Go.Errors.{Error, wrapped}
use k8s_health_ai.Llm.{Diagnosis}

unfoldable pub is_severity : String → Bool
is_severity s = s == "low" || s == "medium" || s == "high" || s == "critical"

unfoldable pub normalize : Diagnosis → Diagnosis
unfolding is_severity
normalize d =
    let s = to_lower (trim_space d.severity) in
    record d { severity = if is_severity s then s else "medium" }

-- raw[i : j+1] for the first "{" at i and the last "}" at j, if j > i
unfoldable pub embedded : String → Option String
embedded raw = elim (index raw "{") [
  | none ↦ none
  | some i ↦ elim (last_index raw "}") [
    | none ↦ none
    | some j ↦ if ltb i j then some (slice raw i (j + 1)) else none
  ]
]

module _ (unmarshal : String → Outcome Error Diagnosis) where
  -- the second attempt, on the embedded object; `e` is the first attempt's error
  unfoldable pub parse_embedded : Option String → Error → Outcome Error Diagnosis
  parse_embedded none e = err (wrapped "parse diagnosis" e)
  parse_embedded (some s) e = elim (unmarshal s) [
    | ok d ↦ ok (normalize d)
    | err _ ↦ err (wrapped "parse diagnosis" e)
  ]

  -- the body of ParseDiagnosisJSON behind the trimming
  unfoldable pub parse_trimmed : String → Outcome Error Diagnosis
  parse_trimmed raw = elim (unmarshal raw) [
    | ok d ↦ ok (normalize d)
    | err e ↦ parse_embedded (embedded raw) e
  ]

  unfoldable pub parse_diagnosis_json : String → Outcome Error Diagnosis
  parse_diagnosis_json raw = parse_trimmed (trim_space raw)
