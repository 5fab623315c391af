-- ===== src/Llm/AzureOpenAi.antt =====
-- internal/llm/azure_openai.go: the Chat Completions of Azure OpenAI.
use k8s_health_ai.Prelude.{
  String, Option, none, some, Outcome, ok, err, List, [], ◌∷◌, ◌==◌, ◌<>◌, if◌then◌else◌,
}
use k8s_health_ai.Go.Strings.{trim_space, trim_suffix}
use k8s_health_ai.Go.Errors.{Error, text_error}
use k8s_health_ai.Action.{Action, raise, lift, ◌>>=◌, ◌>>◌}
use k8s_health_ai.Llm.{FailureContext, Diagnosis, Provider}
use k8s_health_ai.Llm.Prompt.{build_user_prompt}
use k8s_health_ai.Llm.Messages.{AzureChatMessage, AzureChatResponse}
use k8s_health_ai.Llm.Services.{
  HttpClient, HttpResponse, Services, system_prompt, read_diagnosis_text, is_success, refused,
}
use k8s_health_ai.Llm.OpenAi.{choice_text}

abbrev pub azure_api_version : String
azure_api_version = "2024-02-15-preview"

pub record AzureOpenAiProvider (S : Type 0) : Type 0 where
  pub endpoint : String
  pub api_key : String
  pub deployment : String
  pub client : Option (HttpClient S)

-- the two messages of the request
abbrev azure_messages : FailureContext → List AzureChatMessage
azure_messages fc =
    (record { role = "system"; content = system_prompt })
    ∷ (record { role = "user"; content = build_user_prompt fc })
    ∷ []

-- the text in a decoded response
unfoldable pub azure_text : AzureChatResponse → Outcome Error String
azure_text out = choice_text "azure openai" out.error out.choices

module _ {S : Type 0} (sv : Services S) where
  -- NewAzureOpenAIProvider
  unfoldable pub new_azure_openai_provider : Outcome Error (AzureOpenAiProvider S)
  new_azure_openai_provider =
      let endpoint = trim_suffix (trim_space (sv.getenv "AZURE_OPENAI_ENDPOINT")) "/" in
      let key = trim_space (sv.getenv "AZURE_OPENAI_API_KEY") in
      let deployment = trim_space (sv.getenv "AZURE_OPENAI_DEPLOYMENT") in
      if endpoint == ""
      then err (text_error "AZURE_OPENAI_ENDPOINT is required")
      else if key == ""
      then err (text_error "AZURE_OPENAI_API_KEY is required")
      else if deployment == ""
      then err (text_error "AZURE_OPENAI_DEPLOYMENT is required")
      else ok (record {
        endpoint = endpoint;
        api_key = key;
        deployment = deployment;
        client = some sv.default_client;
      })

  -- behind the reading of the body
  unfoldable pub read_azure : String → HttpResponse → String → Action S Diagnosis
  read_azure deployment resp raw =
      if is_success resp
      then (do
        out ← lift (sv.unmarshal_azure raw)
        text ← lift (azure_text out)
        lift (read_diagnosis_text sv.unmarshal deployment text))
      else raise (refused "azure openai chat completions" resp raw)

  -- client
  unfoldable pub azure_client : AzureOpenAiProvider S → HttpClient S
  azure_client a = elim a.client [ none ↦ sv.default_client | some c ↦ c ]

  -- Diagnose
  unfoldable pub diagnose_azure_openai : AzureOpenAiProvider S → Provider S
  diagnose_azure_openai a fc = do
    url ← lift (
        sv.with_query
          (a.endpoint
            <> "/openai/deployments/"
            <> sv.path_escape a.deployment
            <> "/chat/completions")
          "api-version" azure_api_version)
    body ← lift (sv.marshal_azure (record { messages = azure_messages fc; max_tokens = 1024 }))
    lift (sv.check_url url)
    resp ← azure_client a (record {
      url = url;
      headers = ("Content-Type", "application/json") ∷ ("api-key", a.api_key) ∷ [];
      body = body;
    })
    raw ← lift resp.body
    read_azure a.deployment resp raw
