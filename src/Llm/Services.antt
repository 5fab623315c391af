-- ===== src/Llm/Services.antt =====
-- What the backends of internal/llm call: the environment of the process, package encoding/json,
-- package net/http and the clients of Vertex AI and Bedrock, over a state of their own.
use k8s_health_ai.Prelude.{
  ℕ, String, Bool, Outcome, ok, err, List, ◌&&◌, ◌<>◌, ◌==◌, leb, ltb, if◌then◌else◌,
}
use k8s_health_ai.Go.Strings.{trim_space}
use k8s_health_ai.Go.Errors.{Error, text_error}
use k8s_health_ai.Action.{Action}
use k8s_health_ai.Llm.{Diagnosis}
use k8s_health_ai.Llm.Messages.{
  ChatRequest, ChatResponse, AzureChatRequest, AzureChatResponse, OllamaChatRequest,
  OllamaChatResponse,
}
use k8s_health_ai.Llm.Parse.{parse_diagnosis_json}

pub record HttpRequest : Type 0 where
  pub url : String
  pub headers : List (String × String)
  pub body : String

-- `body` is what io.ReadAll gives.
pub record HttpResponse : Type 0 where
  pub status_code : ℕ
  pub status : String
  pub body : Outcome Error String

abbrev pub HttpClient : Type 0 → Type 0
HttpClient S = HttpRequest → Action S HttpResponse

-- a block of a Bedrock message: a text, or of another type
pub data ContentBlock : Type 0 where
  text_block : String → ContentBlock
  other_block : ContentBlock

-- ConverseOutput.Output: nil, a message, or of another type
pub data ConverseOutput : Type 0 where
  no_output : ConverseOutput
  message_output : List ContentBlock → ConverseOutput
  other_output : ConverseOutput

pub record ConverseInput : Type 0 where
  pub model_id : String
  pub user : String
  pub system : String
  pub max_tokens : ℕ

pub record Services (S : Type 0) : Type 0 where
  -- os.Getenv
  pub getenv : String → String
  -- json.Marshal of the request types, json.Unmarshal into the response types and into a Diagnosis
  pub marshal_chat : ChatRequest → Outcome Error String
  pub marshal_azure : AzureChatRequest → Outcome Error String
  pub marshal_ollama : OllamaChatRequest → Outcome Error String
  pub unmarshal_chat : String → Outcome Error ChatResponse
  pub unmarshal_azure : String → Outcome Error AzureChatResponse
  pub unmarshal_ollama : String → Outcome Error OllamaChatResponse
  pub unmarshal : String → Outcome Error Diagnosis
  -- the check of a URL by http.NewRequestWithContext
  pub check_url : String → Outcome Error (Unit {0})
  -- url.PathEscape, and url.Parse with a query of one key and its value
  pub path_escape : String → String
  pub with_query : String → String → String → Outcome Error String
  -- http.DefaultClient
  pub default_client : HttpClient S
  -- genai.Text, as the texts of its contents
  pub genai_text : String → List String
  -- genai.NewClient, and GenerateContent of its client: the model, the contents, the instruction
  pub new_genai_client : Outcome Error (String → List String → String → Action S String)
  -- config.LoadDefaultConfig for a region, and Converse of its client
  pub load_aws_config : String → Outcome Error (ConverseInput → Action S ConverseOutput)
  -- Wait of the limiter that rate.NewLimiter gives for so many requests in a minute
  pub wait : ℕ → Action S (Unit {0})

abbrev pub system_prompt : String
system_prompt =
    "You are a Kubernetes SRE assistant. Reply with a single JSON object only, no markdown fences, with keys:\nroot_cause (string, concise hypothesis),\nseverity (one of: low, medium, high, critical),\nrecommended_fix (string, concrete kubectl or manifest changes),\nmodel (string, echo the model id you are simulating or \"unknown\").\n\nIf information is insufficient, still return valid JSON with best-effort fields."

-- a setting, or its default where it is empty
unfoldable pub or_default : String → String → String
or_default s default = if s == "" then default else s

-- `if d.Model == "" { d.Model = model }`
unfoldable pub with_model : String → Diagnosis → Diagnosis
unfolding or_default
with_model model d = record d { model = or_default d.model model }

-- the end of every backend: the text is parsed, and the model filled in
unfoldable pub read_diagnosis_text :
    (String → Outcome Error Diagnosis) → String → String → Outcome Error Diagnosis
read_diagnosis_text unmarshal model text = elim (parse_diagnosis_json unmarshal text) [
  | ok d ↦ ok (with_model model d)
  | err e ↦ err e
]

-- `resp.StatusCode < 200 || resp.StatusCode >= 300` does not hold
unfoldable pub is_success : HttpResponse → Bool
is_success resp = leb 200 resp.status_code && ltb resp.status_code 300

-- the text of the error of a refused request
unfoldable pub refused : String → HttpResponse → String → Error
refused name resp raw = text_error (name <> ": " <> resp.status <> ": " <> trim_space raw)
