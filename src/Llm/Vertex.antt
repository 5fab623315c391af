-- ===== src/Llm/Vertex.antt =====
-- internal/llm/vertex.go: Vertex AI.
use k8s_health_ai.Prelude.{String, Outcome, ok, err, List, [], ◌∷◌}
use k8s_health_ai.Go.Errors.{Error, text_error}
use k8s_health_ai.Action.{Action, lift, raise, ◌>>=◌}
use k8s_health_ai.Llm.{Diagnosis, Provider}
use k8s_health_ai.Llm.Prompt.{build_user_prompt}
use k8s_health_ai.Llm.Services.{Services, system_prompt, or_default, read_diagnosis_text}

-- VertexProvider: GenerateContent of its client, and its model
pub record VertexProvider (S : Type 0) : Type 0 where
  pub generate : String → List String → String → Action S String
  pub model : String

module _ {S : Type 0} (sv : Services S) where
  -- behind the call of genai.NewClient
  unfoldable pub vertex_with :
      Outcome Error (String → List String → String → Action S String)
      → Outcome Error (VertexProvider S)
  vertex_with (ok client) = ok (record {
    generate = client;
    model = or_default (sv.getenv "VERTEX_MODEL") "gemini-2.0-flash";
  })
  vertex_with (err e) = err e

  -- NewVertexProvider
  unfoldable pub new_vertex_provider : Outcome Error (VertexProvider S)
  unfolding vertex_with
  new_vertex_provider = vertex_with sv.new_genai_client

  -- behind the call of genai.Text
  unfoldable pub generate_with : VertexProvider S → List String → Action S Diagnosis
  generate_with v [] = raise (text_error "empty user content")
  generate_with v (part ∷ parts) = do
    text ← v.generate v.model (part ∷ parts) system_prompt
    lift (read_diagnosis_text sv.unmarshal v.model text)

  -- Diagnose
  unfoldable pub diagnose_vertex : VertexProvider S → Provider S
  unfolding generate_with
  diagnose_vertex v fc = generate_with v (sv.genai_text (build_user_prompt fc))
