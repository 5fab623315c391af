-- ===== src/Llm.antt =====
-- internal/llm: the failure context, the diagnosis, and the providers.
pub mod Prompt
pub mod Parse
pub mod Messages
pub mod Services
pub mod Mock
pub mod OpenAi
pub mod AzureOpenAi
pub mod Ollama
pub mod Vertex
pub mod Bedrock
pub mod RateLimit
pub mod Measured
pub mod Replies
pub mod Reliable
pub mod Factory
use k8s_health_ai.Prelude.{String, List}
use k8s_health_ai.Action.{Action}

-- FailureContext of internal/llm/provider.go
pub record FailureContext : Type 0 where
  pub namespace : String
  pub pod : String
  pub container : String
  pub failure_type : String
  pub pod_spec_yaml : String
  pub events : List String
  pub logs_tail : String

-- Diagnosis of internal/llm/provider.go
pub record Diagnosis : Type 0 where
  pub root_cause : String
  pub severity : String
  pub recommended_fix : String
  pub model : String

-- the interface Provider: Diagnose, over the state that it acts on
abbrev pub Provider : Type 0 → Type 0
Provider S = FailureContext → Action S Diagnosis
