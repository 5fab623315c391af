-- ===== src/Llm/Reliable.antt =====
-- internal/llm: what the backends of internal/llm promise of their diagnoses.
use k8s_health_ai.Prelude.{
  List, [], ◌∷◌, String, Bool-cases, ◌≢◌, refl, inl, inr, Outcome, ok, err, Outcome-cases, ◌==◌,
  eq_iff, str_ne, arith,
}
use k8s_health_ai.Go.Strings.{trim_space}
use k8s_health_ai.Go.Errors.{Error}
use k8s_health_ai.Action.{Action, lift, ◌>>=◌}
use k8s_health_ai.Llm.{FailureContext, Diagnosis, Provider}
use k8s_health_ai.Llm.Parse.{parse_diagnosis_json}
use k8s_health_ai.Llm.Parse.Severity.{IsSeverity, parse_diagnosis_json-IsSeverity}
use k8s_health_ai.Llm.Services.{
  Services, HttpResponse, or_default, with_model, read_diagnosis_text, is_success,
}
use k8s_health_ai.Llm.Mock.{mock_provider, mock_diagnosis}
use k8s_health_ai.Llm.OpenAi.{OpenAiProvider, diagnose_openai, openai_client, read_chat, chat_text}
use k8s_health_ai.Llm.AzureOpenAi.{
  AzureOpenAiProvider, azure_client, azure_text, read_azure, diagnose_azure_openai,
}
use k8s_health_ai.Llm.Ollama.{OllamaProvider, diagnose_ollama, ollama_client, read_ollama}
use k8s_health_ai.Llm.Vertex.{VertexProvider, generate_with, diagnose_vertex}
use k8s_health_ai.Llm.Bedrock.{BedrockProvider, extract_converse_text, diagnose_bedrock}

-- A diagnosis with one of the four severities, and the name of a model.
pub record IsComplete (d : Diagnosis) : Type 0 where
  pub graded : IsSeverity d.severity
  pub named : d.model ≢ ""

-- no diagnosis but a complete one
abbrev pub AllComplete : Outcome Error Diagnosis → Type 0
AllComplete (ok d) = IsComplete d
AllComplete (err e) = Unit

abbrev pub IsReliable : {S : Type 0} → Provider S → Type 0
IsReliable {S} p = (fc : FailureContext) (s : S) → AllComplete (p fc s).0

-- no provider but a reliable one
abbrev pub AllReliable : {S : Type 0} → Outcome Error (Provider S) → Type 0
AllReliable (ok p) = IsReliable p
AllReliable (err e) = Unit

pub or_default_named : (s default : String) → default ≢ "" → or_default s default ≢ ""
unfolding or_default
or_default_named s default h = elim (Bool-cases (s == "")) [
  | inl e ↦ λ k. h (ground (arith, e, k))
  | inr e ↦ λ k. ground (arith, e, k, eq_iff s "")
]

-- an action whose every diagnosis is complete
abbrev pub Complete : {S : Type 0} → Action S Diagnosis → Type 0
Complete {S} m = (s : S) → AllComplete (m s).0

pub Complete-bind :
    {S A : Type 0} (m : Action S A) (f : A → Action S Diagnosis)
    → ((a : A) → Complete (f a))
    → Complete (m >>= f)
Complete-bind m f h s = elim (Outcome-cases (m s).0) [
  | inl (a, e) ↦ rw e (h a (m s).1)
  | inr (x, e) ↦ rw e tt
]

pub IsReliable-mock : {S : Type 0} (model : String) → IsReliable {S = S} (mock_provider model)
unfolding mock_provider mock_diagnosis
IsReliable-mock model fc s = record {
  graded = inr (inr (inl refl));
  named = or_default_named model "mock" (str_ne refl);
}

module _ {S : Type 0} (sv : Services S) where
  AllComplete-read_diagnosis_text :
      (model text : String) → model ≢ "" → AllComplete (read_diagnosis_text sv.unmarshal model text)
  unfolding read_diagnosis_text with_model
  AllComplete-read_diagnosis_text model text h =
      elim (Outcome-cases (parse_diagnosis_json sv.unmarshal text)) [
        | inl (d, e) ↦
            rw (e, AllComplete)
              (record {
                graded = parse_diagnosis_json-IsSeverity sv.unmarshal text {d = d} e;
                named = or_default_named d.model model h;
              })
        | inr (x, e) ↦ rw (e, AllComplete) tt
      ]

  Complete-read_chat :
      (model : String) (resp : HttpResponse) (raw : String)
      → model ≢ ""
      → Complete (read_chat sv model resp raw)
  unfolding read_chat
  Complete-read_chat model resp raw h s = elim (Bool-cases (is_success resp)) [
    | inl e ↦ rw e (
        Complete-bind (lift (sv.unmarshal_chat raw)) _
          (λ out.
            Complete-bind (lift (chat_text out)) _
              λ text s'. AllComplete-read_diagnosis_text model text h)
          s)
    | inr e ↦ rw e tt
  ]

  Complete-read_azure :
      (model : String) (resp : HttpResponse) (raw : String)
      → model ≢ ""
      → Complete (read_azure sv model resp raw)
  unfolding read_azure
  Complete-read_azure model resp raw h s = elim (Bool-cases (is_success resp)) [
    | inl e ↦ rw e (
        Complete-bind (lift (sv.unmarshal_azure raw)) _
          (λ out.
            Complete-bind (lift (azure_text out)) _
              λ text s'. AllComplete-read_diagnosis_text model text h)
          s)
    | inr e ↦ rw e tt
  ]

  Complete-read_ollama :
      (model : String) (resp : HttpResponse) (raw : String)
      → model ≢ ""
      → Complete (read_ollama sv model resp raw)
  unfolding read_ollama
  Complete-read_ollama model resp raw h s = elim (Bool-cases (is_success resp)) [
    | inl e ↦ rw e (
        Complete-bind (lift (sv.unmarshal_ollama raw)) _
          (λ out s'. AllComplete-read_diagnosis_text model (trim_space out.content) h) s)
    | inr e ↦ rw e tt
  ]

  pub IsReliable-openai : (o : OpenAiProvider S) → o.model ≢ "" → IsReliable (diagnose_openai sv o)
  unfolding diagnose_openai
  IsReliable-openai o h fc = Complete-bind (lift (sv.marshal_chat _)) _ λ body.
      Complete-bind (lift (sv.check_url _)) _ λ u.
        Complete-bind (openai_client sv o _) _
          λ resp. Complete-bind (lift resp.body) _ λ raw. Complete-read_chat o.model resp raw h

  pub IsReliable-azure_openai :
      (a : AzureOpenAiProvider S) → a.deployment ≢ "" → IsReliable (diagnose_azure_openai sv a)
  unfolding diagnose_azure_openai
  IsReliable-azure_openai a h fc = Complete-bind (lift (sv.with_query _ _ _)) _ λ url.
      Complete-bind (lift (sv.marshal_azure _)) _ λ body.
        Complete-bind (lift (sv.check_url _)) _ λ u. Complete-bind (azure_client sv a _) _ λ resp.
          Complete-bind (lift resp.body) _ λ raw. Complete-read_azure a.deployment resp raw h

  pub IsReliable-ollama : (o : OllamaProvider S) → o.model ≢ "" → IsReliable (diagnose_ollama sv o)
  unfolding diagnose_ollama
  IsReliable-ollama o h fc = Complete-bind (lift (sv.marshal_ollama _)) _ λ body.
      Complete-bind (lift (sv.check_url _)) _ λ u.
        Complete-bind (ollama_client sv o _) _
          λ resp. Complete-bind (lift resp.body) _ λ raw. Complete-read_ollama o.model resp raw h

  Complete-generate_with :
      (v : VertexProvider S) (parts : List String)
      → v.model ≢ ""
      → Complete (generate_with sv v parts)
  unfolding generate_with
  Complete-generate_with v [] h = λ s. tt
  Complete-generate_with v (part ∷ parts) h =
      Complete-bind (v.generate _ _ _) _ λ text s'. AllComplete-read_diagnosis_text v.model text h

  pub IsReliable-vertex : (v : VertexProvider S) → v.model ≢ "" → IsReliable (diagnose_vertex sv v)
  unfolding diagnose_vertex
  IsReliable-vertex v h fc = Complete-generate_with v (sv.genai_text _) h

  pub IsReliable-bedrock :
      (b : BedrockProvider S) → b.model_id ≢ "" → IsReliable (diagnose_bedrock sv b)
  unfolding diagnose_bedrock
  IsReliable-bedrock b h fc = Complete-bind (b.converse _) _ λ out.
      Complete-bind (lift (extract_converse_text out)) _
        λ text s'. AllComplete-read_diagnosis_text b.model_id text h
