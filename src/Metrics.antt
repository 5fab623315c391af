-- ===== src/Metrics.antt =====
-- internal/metrics/metrics.go: the vectors of Prometheus, their registration, and what is sampled.
pub mod Reported
use k8s_health_ai.Prelude.{String, List, [], ◌∷◌}
use k8s_health_ai.Prelude.Int.{ℤ}
use k8s_health_ai.Go.Strings.{to_lower}
use k8s_health_ai.Action.{Action, ◌>>=◌, ◌>>◌}

-- prometheus.CounterVec, and prometheus.HistogramVec with the default buckets
pub data VecKind : Type 0 where
  counter histogram : VecKind

pub record Vec : Type 0 where
  pub kind : VecKind
  pub name : String
  pub help : String
  pub labels : List String

abbrev pub diagnoses_total : Vec
diagnoses_total = record {
  kind = counter;
  name = "diagnoses_total";
  help = "Count of cluster diagnosis reconciliations by failure type and phase.";
  labels = "failure_type" ∷ "phase" ∷ [];
}

abbrev pub reconcile_duration : Vec
reconcile_duration = record {
  kind = histogram;
  name = "reconcile_duration_seconds";
  help = "Duration of reconcile calls in seconds.";
  labels = "result" ∷ [];
}

abbrev pub llm_call_duration : Vec
llm_call_duration = record {
  kind = histogram;
  name = "llm_call_duration_seconds";
  help = "Duration of LLM provider calls in seconds.";
  labels = "provider" ∷ "result" ∷ [];
}

-- WithLabelValues of a vector, with Inc, or with Observe of a duration's seconds
pub data Sample : Type 0 where
  inc : Vec → (label_values : List String) → Sample
  observe : Vec → (label_values : List String) → (d : ℤ) → Sample

-- RecordDiagnosis, ObserveReconcile and ObserveLLMCall: the call that each makes
unfoldable pub record_diagnosis : String → String → Sample
unfolding to_lower
record_diagnosis failure_type phase = inc diagnoses_total (failure_type ∷ to_lower phase ∷ [])

unfoldable pub observe_reconcile : String → ℤ → Sample
unfolding to_lower
observe_reconcile result d = observe reconcile_duration (to_lower result ∷ []) d

unfoldable pub observe_llm_call : String → String → ℤ → Sample
unfolding to_lower
observe_llm_call provider result d = observe llm_call_duration (provider ∷ to_lower result ∷ []) d

-- The library: MustRegister of the registry, and the calls of a vector. A panic is an error.
pub record Prometheus (S : Type 0) : Type 0 where
  pub must_register : Vec → Action S (Unit {0})
  pub sample : Sample → Action S (Unit {0})

module _ {S : Type 0} (prometheus : Prometheus S) where
  unfoldable pub init : Action S (Unit {0})
  init =
      prometheus.must_register diagnoses_total
      >> prometheus.must_register reconcile_duration
      >> prometheus.must_register llm_call_duration
