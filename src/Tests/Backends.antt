-- ===== src/Tests/Backends.antt =====
-- The theorems on the providers at an environment and services of which those over HTTP answer.
use k8s_health_ai.Prelude.{ℕ, String, none, [], ◌∷◌, ok, err, refl, ◌==◌, if◌then◌else◌}
use k8s_health_ai.Go.Errors.{text_error}
use k8s_health_ai.Action.{pure}
use k8s_health_ai.Llm.Messages.{ChatResponse}
use k8s_health_ai.Llm.Services.{HttpRequest, HttpResponse, Services, or_default}
use k8s_health_ai.Go.Strings.{trim_space, to_lower}
use k8s_health_ai.Llm.Reliable.{AllReliable}
use k8s_health_ai.Llm.Factory.{new_from_env}
use k8s_health_ai.Llm.Factory.Answers.{new_from_env-AllReliable}
use k8s_health_ai.Llm.{FailureContext, Diagnosis}
use k8s_health_ai.Llm.AzureOpenAi.{AzureOpenAiProvider, azure_client, diagnose_azure_openai}
use k8s_health_ai.Llm.Replies.{azure_openai, Replied, diagnose_by-Replied}
use k8s_health_ai.Tests.Data.{diagnosis_of, object_text, unmarshal}

abbrev setting : String → String → String
setting name key = if key == "LLM_PROVIDER" then name else ""

abbrev chat_reply : ChatResponse
chat_reply = record { choices = object_text ∷ []; error = none }

-- a process whose variable LLM_PROVIDER is `name`
abbrev pub services : String → Services ℕ
services name = record {
  getenv = setting name;
  marshal_chat = λ request. ok "{}";
  marshal_azure = λ request. ok "{}";
  marshal_ollama = λ request. ok "{}";
  unmarshal_chat = λ s. ok chat_reply;
  unmarshal_azure = λ s. ok (record { choices = object_text ∷ []; error = none });
  unmarshal_ollama = λ s. ok (record { content = object_text });
  unmarshal = unmarshal;
  check_url = λ url. ok tt;
  path_escape = λ s. s;
  with_query = λ url key value. ok url;
  default_client =
      λ request. pure (record { status_code = 200; status = "200 OK"; body = ok "{}" });
  genai_text = λ s. s ∷ [];
  new_genai_client = err (text_error "no project");
  load_aws_config = λ region. err (text_error "no region");
  wait = λ n. pure tt;
}

abbrev pub quote : String → String
quote s = s

new_from_env-AllReliable_example : AllReliable (new_from_env (services " Ollama") quote)
new_from_env-AllReliable_example = new_from_env-AllReliable (services " Ollama") quote

abbrev deployed : AzureOpenAiProvider ℕ
deployed = record {
  endpoint = "https://shop.openai.azure.com";
  api_key = "key";
  deployment = "gpt-4o";
  client = none;
}

abbrev no_context : FailureContext
no_context = record {
  namespace = "";
  pod = "";
  container = "";
  failure_type = "";
  pod_spec_yaml = "";
  events = [];
  logs_tail = "";
}

abbrev answer : Diagnosis
answer = record (diagnosis_of "high") { model = "gpt-4o" }

diagnose_by-Replied_example : Replied (services "azure-openai") (azure_openai deployed) 0 answer
unfolding diagnose_azure_openai azure_client k8s_health_ai.Llm.AzureOpenAi.read_azure
    k8s_health_ai.Llm.AzureOpenAi.azure_text k8s_health_ai.Llm.OpenAi.choice_text
    k8s_health_ai.Llm.Services.is_success k8s_health_ai.Llm.OpenAi.api_failure
    k8s_health_ai.Llm.OpenAi.first_choice k8s_health_ai.Llm.Services.read_diagnosis_text
    k8s_health_ai.Llm.Parse.parse_diagnosis_json k8s_health_ai.Llm.Parse.parse_trimmed trim_space
    k8s_health_ai.Go.Strings.is_space k8s_health_ai.Go.Strings.keep_char
    k8s_health_ai.Llm.Services.with_model k8s_health_ai.Llm.Parse.normalize to_lower
diagnose_by-Replied_example =
    diagnose_by-Replied (services "azure-openai") (azure_openai deployed) no_context 0 {d = answer}
      refl
