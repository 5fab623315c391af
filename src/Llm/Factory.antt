-- ===== src/Llm/Factory.antt =====
-- internal/llm/factory.go: the provider that the environment selects.
pub mod Answers
use k8s_health_ai.Prelude.{String, Bool, Outcome, ok, err, ◌==◌, ◌<>◌, if◌then◌else◌}
use k8s_health_ai.Go.Strings.{trim_space, to_lower}
use k8s_health_ai.Go.Errors.{Error, text_error}
use k8s_health_ai.Llm.{Provider}
use k8s_health_ai.Llm.Services.{Services, or_default}
use k8s_health_ai.Llm.Mock.{mock_provider}
use k8s_health_ai.Llm.OpenAi.{new_openai_provider, diagnose_openai}
use k8s_health_ai.Llm.AzureOpenAi.{new_azure_openai_provider, diagnose_azure_openai}
use k8s_health_ai.Llm.Ollama.{new_ollama_provider, diagnose_ollama}
use k8s_health_ai.Llm.Vertex.{new_vertex_provider, diagnose_vertex}
use k8s_health_ai.Llm.Bedrock.{new_bedrock_provider, diagnose_bedrock}
use k8s_health_ai.Llm.RateLimit.{wrap_with_llm_rate_limit}

-- `inner, err = …`: the provider that a backend's Diagnose is, where the backend could be made
abbrev pub provider_of :
    {S P : Type 0} → (P → Provider S) → Outcome Error P → Outcome Error (Provider S)
provider_of diagnose (ok p) = ok (diagnose p)
provider_of diagnose (err e) = err e

module _ {S : Type 0} (sv : Services S) where
  -- what NewFromEnv does with the switch's answer
  unfoldable pub finish_provider : Outcome Error (Provider S) → Outcome Error (Provider S)
  finish_provider (ok inner) = ok (wrap_with_llm_rate_limit sv inner)
  finish_provider (err e) = err e

  -- the switch; `quote` is the verb %q
  module _ (quote : String → String) where
    unfoldable pub select_provider : String → Outcome Error (Provider S)
    select_provider p =
        if p == "mock"
        then ok (mock_provider "mock")
        else if p == "bedrock"
        then provider_of (diagnose_bedrock sv) (new_bedrock_provider sv)
        else if p == "vertex"
        then provider_of (diagnose_vertex sv) (new_vertex_provider sv)
        else if p == "openai"
        then provider_of (diagnose_openai sv) (new_openai_provider sv)
        else if p == "azure-openai"
        then provider_of (diagnose_azure_openai sv) (new_azure_openai_provider sv)
        else if p == "ollama"
        then provider_of (diagnose_ollama sv) (new_ollama_provider sv)
        else err (
            text_error (
              "unknown LLM_PROVIDER "
              <> quote p
              <> " (valid: mock, bedrock, vertex, openai, azure-openai, ollama)"))

    -- NewFromEnv
    unfoldable pub new_from_env : Outcome Error (Provider S)
    unfolding select_provider finish_provider
    new_from_env =
        finish_provider
          (select_provider (or_default (to_lower (trim_space (sv.getenv "LLM_PROVIDER"))) "mock"))
