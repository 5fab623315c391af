-- ===== src/Llm/Parse/Severity.antt =====
-- internal/llm/provider.go: every diagnosis that is parsed has one of the four severities.
use k8s_health_ai.Prelude.{◌≡◌, ◌⊎◌, String, true, Outcome, ok, arith, eq_iff}
use k8s_health_ai.Go.Strings.{trim_space, to_lower}
use k8s_health_ai.Go.Errors.{Error}
use k8s_health_ai.Llm.{Diagnosis}
use k8s_health_ai.Llm.Parse.{
  is_severity, normalize, parse_embedded, parse_trimmed, parse_diagnosis_json,
}

abbrev pub IsSeverity : String → Type 0
IsSeverity s = (s ≡ "low") ⊎ (s ≡ "medium") ⊎ (s ≡ "high") ⊎ (s ≡ "critical")

is_severity_sound : (s : String) → is_severity s ≡ true → IsSeverity s
unfolding is_severity
is_severity_sound s h =
    ground (arith, eq_iff s "low", eq_iff s "medium", eq_iff s "high", eq_iff s "critical")

pub normalize-IsSeverity : (d : Diagnosis) → IsSeverity (normalize d).severity
unfolding normalize
normalize-IsSeverity d = ground (arith, is_severity_sound (to_lower (trim_space d.severity)))

-- A severity that is known up to case and space around it is kept, in lower case.
pub normalize_known :
    (d : Diagnosis)
    → IsSeverity (to_lower (trim_space d.severity))
    → (normalize d).severity ≡ to_lower (trim_space d.severity)
unfolding normalize is_severity
normalize_known d h =
    let s = to_lower (trim_space d.severity) in
    ground (arith, eq_iff s "low", eq_iff s "medium", eq_iff s "high", eq_iff s "critical")

module _ (unmarshal : String → Outcome Error Diagnosis) where
  -- Whatever the decoder does, a diagnosis that ParseDiagnosisJSON returns has one of the four
  -- severities.
  pub parse_diagnosis_json-IsSeverity :
      (raw : String) {d : Diagnosis}
      → parse_diagnosis_json unmarshal raw ≡ ok d
      → IsSeverity d.severity
  unfolding parse_diagnosis_json parse_trimmed parse_embedded
  parse_diagnosis_json-IsSeverity raw {d} h = grind (arith, normalize-IsSeverity)
