-- ===== src/Llm/Messages.antt =====
-- internal/llm/openai.go, azure_openai.go and ollama.go: the bodies of requests and of replies.
use k8s_health_ai.Prelude.{ℕ, String, Bool, Option, List}

-- openAIChatMessage
pub record ChatMessage : Type 0 where
  pub role : String
  pub content : String

-- openAIChatRequest
pub record ChatRequest : Type 0 where
  pub model : String
  pub messages : List ChatMessage
  pub max_tokens : ℕ

-- openAIChatResponse: the content of each choice's message, and the message of the error
pub record ChatResponse : Type 0 where
  pub choices : List String
  pub error : Option String

-- azureChatMessage
pub record AzureChatMessage : Type 0 where
  pub role : String
  pub content : String

-- azureChatRequest
pub record AzureChatRequest : Type 0 where
  pub messages : List AzureChatMessage
  pub max_tokens : ℕ

-- azureChatResponse
pub record AzureChatResponse : Type 0 where
  pub choices : List String
  pub error : Option String

-- ollamaChatMessage
pub record OllamaChatMessage : Type 0 where
  pub role : String
  pub content : String

-- ollamaChatRequest
pub record OllamaChatRequest : Type 0 where
  pub model : String
  pub messages : List OllamaChatMessage
  pub stream : Bool

-- ollamaChatResponse: the content of the message
pub record OllamaChatResponse : Type 0 where
  pub content : String
