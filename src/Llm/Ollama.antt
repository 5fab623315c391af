-- ===== src/Llm/Ollama.antt =====
-- internal/llm/ollama.go: the endpoint /api/chat of Ollama.
use k8s_health_ai.Prelude.{
  String, false, Option, none, some, Outcome, ok, List, [], ◌∷◌, ◌<>◌, if◌then◌else◌,
}
use k8s_health_ai.Go.Strings.{trim_space, trim_suffix}
use k8s_health_ai.Go.Errors.{Error}
use k8s_health_ai.Action.{Action, raise, lift, ◌>>=◌, ◌>>◌}
use k8s_health_ai.Llm.{FailureContext, Diagnosis, Provider}
use k8s_health_ai.Llm.Services.{
  HttpClient, HttpResponse, Services, system_prompt, or_default, read_diagnosis_text, is_success,
  refused,
}
use k8s_health_ai.Llm.Prompt.{build_user_prompt}
use k8s_health_ai.Llm.Messages.{OllamaChatMessage}

pub record OllamaProvider (S : Type 0) : Type 0 where
  pub base_url : String
  pub model : String
  pub client : Option (HttpClient S)

-- the two messages of the request
abbrev ollama_messages : FailureContext → List OllamaChatMessage
ollama_messages fc =
    (record { role = "system"; content = system_prompt })
    ∷ (record { role = "user"; content = build_user_prompt fc })
    ∷ []

module _ {S : Type 0} (sv : Services S) where
  -- NewOllamaProvider, which never fails
  unfoldable pub new_ollama_provider : Outcome Error (OllamaProvider S)
  unfolding or_default
  new_ollama_provider = ok (record {
    base_url =
        or_default (trim_suffix (trim_space (sv.getenv "OLLAMA_HOST")) "/")
          "http://127.0.0.1:11434";
    model = or_default (trim_space (sv.getenv "OLLAMA_MODEL")) "llama3.2";
    client = some sv.default_client;
  })

  -- behind the reading of the body
  unfoldable pub read_ollama : String → HttpResponse → String → Action S Diagnosis
  read_ollama model resp raw =
      if is_success resp
      then (do
        out ← lift (sv.unmarshal_ollama raw)
        lift (read_diagnosis_text sv.unmarshal model (trim_space out.content)))
      else raise (refused "ollama /api/chat" resp raw)

  -- client
  unfoldable pub ollama_client : OllamaProvider S → HttpClient S
  ollama_client o = elim o.client [ none ↦ sv.default_client | some c ↦ c ]

  -- Diagnose
  unfoldable pub diagnose_ollama : OllamaProvider S → Provider S
  diagnose_ollama o fc = do
    body ← lift (
        sv.marshal_ollama
          (record { model = o.model; messages = ollama_messages fc; stream = false }))
    let url = o.base_url <> "/api/chat"
    lift (sv.check_url url)
    resp ←
        ollama_client o
          (record { url = url; headers = ("Content-Type", "application/json") ∷ []; body = body })
    raw ← lift resp.body
    read_ollama o.model resp raw
