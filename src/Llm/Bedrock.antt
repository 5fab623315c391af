-- ===== src/Llm/Bedrock.antt =====
-- internal/llm/bedrock.go: the Converse API of Amazon Bedrock.
use k8s_health_ai.Prelude.{String, Outcome, ok, err, List, [], ◌∷◌, ◌<>◌}
use k8s_health_ai.Go.Errors.{Error, text_error}
use k8s_health_ai.Action.{Action, lift, ◌>>=◌}
use k8s_health_ai.Llm.{Provider}
use k8s_health_ai.Llm.Prompt.{build_user_prompt}
use k8s_health_ai.Llm.Services.{
  ContentBlock, text_block, other_block, ConverseOutput, no_output, message_output, other_output,
  ConverseInput, Services, system_prompt, or_default, read_diagnosis_text,
}

-- BedrockProvider: Converse of its client, and the model
pub record BedrockProvider (S : Type 0) : Type 0 where
  pub converse : ConverseInput → Action S ConverseOutput
  pub model_id : String

-- the texts among the blocks of a message
unfoldable pub text_parts : List ContentBlock → List String
text_parts [] = []
text_parts (text_block s ∷ blocks) = s ∷ text_parts blocks
text_parts (other_block ∷ blocks) = text_parts blocks

-- the loop `acc += p`
unfoldable pub join_parts : String → List String → String
join_parts acc [] = acc
join_parts acc (p ∷ parts) = join_parts (acc <> p) parts

unfoldable pub text_or_error : List String → Outcome Error String
unfolding join_parts
text_or_error [] = err (text_error "no text in message")
text_or_error (p ∷ parts) = ok (join_parts "" (p ∷ parts))

unfoldable pub extract_converse_text : ConverseOutput → Outcome Error String
extract_converse_text no_output = err (text_error "empty converse output")
extract_converse_text other_output = err (text_error "unexpected output type")
extract_converse_text (message_output blocks) = text_or_error (text_parts blocks)

module _ {S : Type 0} (sv : Services S) where
  -- behind the call of config.LoadDefaultConfig
  unfoldable pub bedrock_with :
      Outcome Error (ConverseInput → Action S ConverseOutput) → Outcome Error (BedrockProvider S)
  bedrock_with (ok client) = ok (record {
    converse = client;
    model_id = or_default (sv.getenv "BEDROCK_MODEL_ID") "anthropic.claude-3-haiku-20240307-v1:0";
  })
  bedrock_with (err e) = err e

  -- NewBedrockProvider
  unfoldable pub new_bedrock_provider : Outcome Error (BedrockProvider S)
  unfolding bedrock_with
  new_bedrock_provider =
      bedrock_with (sv.load_aws_config (or_default (sv.getenv "AWS_REGION") "us-east-1"))

  -- Diagnose
  unfoldable pub diagnose_bedrock : BedrockProvider S → Provider S
  diagnose_bedrock b fc = do
    out ← b.converse (record {
      model_id = b.model_id;
      user = build_user_prompt fc;
      system = system_prompt;
      max_tokens = 1024;
    })
    text ← lift (extract_converse_text out)
    lift (read_diagnosis_text sv.unmarshal b.model_id text)
