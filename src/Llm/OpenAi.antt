-- ===== src/Llm/OpenAi.antt =====
-- internal/llm/openai.go: the Chat Completions of OpenAI.
use k8s_health_ai.Prelude.{
  String, Option, none, some, Outcome, ok, err, List, [], ◌∷◌, ◌==◌, ◌<>◌, if◌then◌else◌,
}
use k8s_health_ai.Go.Strings.{trim_space, trim_suffix}
use k8s_health_ai.Go.Errors.{Error, text_error}
use k8s_health_ai.Action.{Action, raise, lift, ◌>>=◌, ◌>>◌}
use k8s_health_ai.Llm.{FailureContext, Diagnosis, Provider}
use k8s_health_ai.Llm.Prompt.{build_user_prompt}
use k8s_health_ai.Llm.Messages.{ChatMessage, ChatResponse}
use k8s_health_ai.Llm.Services.{
  HttpClient, HttpResponse, Services, system_prompt, or_default, read_diagnosis_text, is_success,
  refused,
}

pub record OpenAiProvider (S : Type 0) : Type 0 where
  pub base_url : String
  pub api_key : String
  pub model : String
  pub client : Option (HttpClient S)

-- the two messages of the request
abbrev pub chat_messages : FailureContext → List ChatMessage
chat_messages fc =
    (record { role = "system"; content = system_prompt })
    ∷ (record { role = "user"; content = build_user_prompt fc })
    ∷ []

-- `out.Error != nil && out.Error.Message != ""`: the message of the error, if there is one
unfoldable pub api_failure : Option String → Option String
api_failure none = none
api_failure (some msg) = if msg == "" then none else some msg

-- the first choice's content
unfoldable pub first_choice : String → List String → Outcome Error String
first_choice name [] = err (text_error (name <> ": empty choices"))
first_choice name (text ∷ texts) = ok (trim_space text)

-- the text among the choices, where there is no error; `name` begins the error texts
unfoldable pub choice_text : String → Option String → List String → Outcome Error String
choice_text name error choices = elim (api_failure error) [
  | some msg ↦ err (text_error (name <> " api error: " <> msg))
  | none ↦ first_choice name choices
]

-- the text in a decoded response
unfoldable pub chat_text : ChatResponse → Outcome Error String
chat_text out = choice_text "openai" out.error out.choices

module _ {S : Type 0} (sv : Services S) where
  -- NewOpenAIProvider
  unfoldable pub new_openai_provider : Outcome Error (OpenAiProvider S)
  new_openai_provider =
      let key = trim_space (sv.getenv "OPENAI_API_KEY") in
      if key == ""
      then err (text_error "OPENAI_API_KEY is required")
      else ok (record {
        base_url =
            or_default (trim_suffix (trim_space (sv.getenv "OPENAI_BASE_URL")) "/")
              "https://api.openai.com/v1";
        api_key = key;
        model = or_default (trim_space (sv.getenv "OPENAI_MODEL")) "gpt-4o-mini";
        client = some sv.default_client;
      })

  -- behind the reading of the body
  unfoldable pub read_chat : String → HttpResponse → String → Action S Diagnosis
  read_chat model resp raw =
      if is_success resp
      then (do
        out ← lift (sv.unmarshal_chat raw)
        text ← lift (chat_text out)
        lift (read_diagnosis_text sv.unmarshal model text))
      else raise (refused "openai chat completions" resp raw)

  -- client
  unfoldable pub openai_client : OpenAiProvider S → HttpClient S
  openai_client o = elim o.client [ none ↦ sv.default_client | some c ↦ c ]

  -- Diagnose
  unfoldable pub diagnose_openai : OpenAiProvider S → Provider S
  diagnose_openai o fc = do
    body ← lift (
        sv.marshal_chat
          (record { model = o.model; messages = chat_messages fc; max_tokens = 1024 }))
    let url = o.base_url <> "/chat/completions"
    lift (sv.check_url url)
    resp ← openai_client o (record {
      url = url;
      headers =
          ("Content-Type", "application/json") ∷ ("Authorization", "Bearer " <> o.api_key) ∷ [];
      body = body;
    })
    raw ← lift resp.body
    read_chat o.model resp raw
