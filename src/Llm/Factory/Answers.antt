-- ===== src/Llm/Factory/Answers.antt =====
-- internal/llm/factory.go: what every provider that NewFromEnv makes promises of its diagnoses.
use k8s_health_ai.Prelude.{
  List, zero, suc, String, Bool, true, false, Bool-cases, ◌≡◌, refl, ◌⊎◌, inl, inr, Option, none,
  some, Outcome, ok, err, ◌==◌, eq_iff, str_ne, if◌then◌else◌, arith,
}
use k8s_health_ai.Prelude.Int.{ℤ, pos, negsuc}
use k8s_health_ai.Go.Strings.{trim_space, trim_suffix, to_lower}
use k8s_health_ai.Go.Errors.{Error}
use k8s_health_ai.Action.{Action}
use k8s_health_ai.Llm.{Provider}
use k8s_health_ai.Llm.Services.{ConverseInput, ConverseOutput, Services, or_default}
use k8s_health_ai.Llm.OpenAi.{new_openai_provider, diagnose_openai}
use k8s_health_ai.Llm.AzureOpenAi.{new_azure_openai_provider, diagnose_azure_openai}
use k8s_health_ai.Llm.Ollama.{new_ollama_provider, diagnose_ollama}
use k8s_health_ai.Llm.Vertex.{vertex_with, new_vertex_provider, diagnose_vertex}
use k8s_health_ai.Llm.Bedrock.{bedrock_with, new_bedrock_provider, diagnose_bedrock}
use k8s_health_ai.Llm.RateLimit.{
  wait_and_diagnose, diagnose_limited, limit_to, llm_rpm, wrap_with_llm_rate_limit,
}
use k8s_health_ai.Llm.Factory.{provider_of, select_provider, finish_provider, new_from_env}
use k8s_health_ai.Llm.Reliable.{
  IsReliable, AllReliable, Complete-bind, or_default_named, IsReliable-openai,
  IsReliable-azure_openai, IsReliable-ollama, IsReliable-vertex, IsReliable-bedrock,
  IsReliable-mock,
}

abbrev pub IsProviderName : String → Type 0
IsProviderName s =
    (s ≡ "mock")
    ⊎ (s ≡ "bedrock")
    ⊎ (s ≡ "vertex")
    ⊎ (s ≡ "openai")
    ⊎ (s ≡ "azure-openai")
    ⊎ (s ≡ "ollama")

module _ {S : Type 0} (sv : Services S) where
  AllReliable-openai : AllReliable (provider_of (diagnose_openai sv) (new_openai_provider sv))
  unfolding new_openai_provider
  AllReliable-openai = elim (Bool-cases (trim_space (sv.getenv "OPENAI_API_KEY") == "")) [
    | inl e ↦ rw e tt
    | inr e ↦ rw e (IsReliable-openai sv _ (or_default_named _ "gpt-4o-mini" (str_ne refl)))
  ]

  AllReliable-azure_openai :
      AllReliable (provider_of (diagnose_azure_openai sv) (new_azure_openai_provider sv))
  unfolding new_azure_openai_provider
  AllReliable-azure_openai =
      elim (Bool-cases (trim_suffix (trim_space (sv.getenv "AZURE_OPENAI_ENDPOINT")) "/" == "")) [
        | inl e ↦ rw e tt
        | inr e ↦ elim (Bool-cases (trim_space (sv.getenv "AZURE_OPENAI_API_KEY") == "")) [
          | inl e' ↦ rw (e, e') tt
          | inr e' ↦ elim (Bool-cases (trim_space (sv.getenv "AZURE_OPENAI_DEPLOYMENT") == "")) [
            | inl d ↦ rw (e, e', d) tt
            | inr d ↦ rw (e, e', d) (IsReliable-azure_openai sv _ (str_ne d))
          ]
        ]
      ]

  AllReliable-ollama : AllReliable (provider_of (diagnose_ollama sv) (new_ollama_provider sv))
  unfolding new_ollama_provider
  AllReliable-ollama =
      IsReliable-ollama sv
        (record {
          base_url =
              or_default (trim_suffix (trim_space (sv.getenv "OLLAMA_HOST")) "/")
                "http://127.0.0.1:11434";
          model = or_default (trim_space (sv.getenv "OLLAMA_MODEL")) "llama3.2";
          client = some sv.default_client;
        })
        (or_default_named (trim_space (sv.getenv "OLLAMA_MODEL")) "llama3.2" (str_ne refl))

  AllReliable-vertex :
      (r : Outcome Error (String → List String → String → Action S String))
      → AllReliable (provider_of (diagnose_vertex sv) (vertex_with sv r))
  unfolding vertex_with
  AllReliable-vertex (ok client) =
      IsReliable-vertex sv _ (or_default_named (sv.getenv "VERTEX_MODEL") _ (str_ne refl))
  AllReliable-vertex (err e) = tt

  AllReliable-bedrock :
      (r : Outcome Error (ConverseInput → Action S ConverseOutput))
      → AllReliable (provider_of (diagnose_bedrock sv) (bedrock_with sv r))
  unfolding bedrock_with
  AllReliable-bedrock (ok client) =
      IsReliable-bedrock sv _ (or_default_named (sv.getenv "BEDROCK_MODEL_ID") _ (str_ne refl))
  AllReliable-bedrock (err e) = tt

  -- The limiter lets the inner provider answer, or ends with its own error.
  IsReliable-limited :
      (limiter : Option (Action S (Unit {0}))) (inner : Provider S)
      → IsReliable inner
      → IsReliable (wait_and_diagnose limiter inner)
  unfolding wait_and_diagnose
  IsReliable-limited none inner h fc = h fc
  IsReliable-limited (some wait) inner h fc = Complete-bind wait _ λ u. h fc

  IsReliable-limit_to :
      (rpm : ℤ) (inner : Provider S) → IsReliable inner → IsReliable (limit_to sv rpm inner)
  unfolding limit_to diagnose_limited
  IsReliable-limit_to (negsuc n) inner h = h
  IsReliable-limit_to (pos zero) inner h = h
  IsReliable-limit_to (pos (suc n)) inner h = IsReliable-limited (some (sv.wait (suc n))) inner h

  AllReliable-finish :
      (r : Outcome Error (Provider S)) → AllReliable r → AllReliable (finish_provider sv r)
  unfolding finish_provider wrap_with_llm_rate_limit
  AllReliable-finish (ok inner) h = IsReliable-limit_to (llm_rpm (sv.getenv "LLM_RPM")) inner h
  AllReliable-finish (err e) h = tt

  finish-ok :
      (r : Outcome Error (Provider S)) {p : Provider S}
      → finish_provider sv r ≡ ok p
      → (q : Provider S) × (r ≡ ok q)
  unfolding finish_provider
  finish-ok (ok inner) h = (inner, refl)
  finish-ok (err e) h = absurd (ground (arith, h))

  AllReliable-if :
      (b : Bool) (p q : Outcome Error (Provider S))
      → AllReliable p
      → AllReliable q
      → AllReliable (if b then p else q)
  AllReliable-if true p q h k = h
  AllReliable-if false p q h k = k

  module _ (quote : String → String) where
    AllReliable-select : (p : String) → AllReliable (select_provider sv quote p)
    unfolding select_provider new_vertex_provider new_bedrock_provider
    AllReliable-select p = AllReliable-if (p == "mock") _ _ (IsReliable-mock "mock") (
        AllReliable-if (p == "bedrock") _ _ (AllReliable-bedrock _) (
          AllReliable-if (p == "vertex") _ _ (AllReliable-vertex _) (
            AllReliable-if (p == "openai") _ _ AllReliable-openai (
              AllReliable-if (p == "azure-openai") _ _ AllReliable-azure_openai
                (AllReliable-if (p == "ollama") _ _ AllReliable-ollama tt)))))

    select_provider_known :
        (name : String) {q : Provider S}
        → select_provider sv quote name ≡ ok q
        → IsProviderName name
    unfolding select_provider
    select_provider_known name {q} h = ground (
      arith,
      h,
      eq_iff name "mock",
      eq_iff name "bedrock",
      eq_iff name "vertex",
      eq_iff name "openai",
      eq_iff name "azure-openai",
      eq_iff name "ollama",
    )

    -- Whatever the environment selects, and whatever the services answer, a provider that
    -- NewFromEnv returns gives no diagnosis without one of the four severities and the name of a
    -- model.
    pub new_from_env-AllReliable : AllReliable (new_from_env sv quote)
    unfolding new_from_env
    new_from_env-AllReliable =
        AllReliable-finish _ (
          AllReliable-select (or_default (to_lower (trim_space (sv.getenv "LLM_PROVIDER"))) "mock"))

    -- Where NewFromEnv returns a provider, the setting LLM_PROVIDER, trimmed, in lower case, and
    -- "mock" where that is empty, is one of the six names.
    pub new_from_env_known :
        {p : Provider S}
        → new_from_env sv quote ≡ ok p
        → IsProviderName (or_default (to_lower (trim_space (sv.getenv "LLM_PROVIDER"))) "mock")
    unfolding new_from_env
    new_from_env_known {p} h =
        let name = or_default (to_lower (trim_space (sv.getenv "LLM_PROVIDER"))) "mock" in
        let (q, e) = finish-ok (select_provider sv quote name) h in select_provider_known name e
