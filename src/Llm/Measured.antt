-- ===== src/Llm/Measured.antt =====
-- internal/llm/ratelimit.go: the provider that observes the duration of its calls.
use k8s_health_ai.Prelude.{ℕ, String, Outcome, ok, err}
use k8s_health_ai.Go.Errors.{Error}
use k8s_health_ai.Metrics.{Sample, observe_llm_call}
use k8s_health_ai.Controller.Rate.{since}
use k8s_health_ai.Llm.{Diagnosis, Provider}

-- The clock, and the calls of the Prometheus vectors.
pub record Meter (S : Type 0) : Type 0 where
  pub now : S → ℕ × S
  pub sample : Sample → S → S

pub record MeasuredProvider (S : Type 0) : Type 0 where
  pub inner : Provider S
  pub provider_name : String

-- the label of an answer
unfoldable pub llm_result : Outcome Error Diagnosis → String
llm_result (ok diag) = "success"
llm_result (err e) = "error"

module _ {S : Type 0} (meter : Meter S) where
  -- Diagnose of a MeasuredProvider
  unfoldable pub diagnose_measured : MeasuredProvider S → Provider S
  unfolding llm_result since
  diagnose_measured m fc s =
      let (start, s1) = meter.now s in
      let (answer, s2) = m.inner fc s1 in
      let (stop, s3) = meter.now s2 in
      let d = since stop start in
      (answer, meter.sample (observe_llm_call m.provider_name (llm_result answer) d) s3)

  unfoldable pub wrap_with_measurement : Provider S → String → Provider S
  unfolding diagnose_measured
  wrap_with_measurement inner provider_name =
      diagnose_measured (record { inner = inner; provider_name = provider_name })
