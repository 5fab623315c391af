-- ===== src/Llm/Replies.antt =====
-- internal/llm/openai.go, azure_openai.go and ollama.go: which replies lead to a diagnosis.
use k8s_health_ai.Prelude.{
  if◌then◌else◌, Outcome, String, true, Bool-cases, ◌≡◌, refl, Option, none, some, ok,
  Outcome-cases, Option-cases, inl, inr, List, [], ◌∷◌, ◌<>◌, eq_iff, arith,
}
use k8s_health_ai.Go.Strings.{trim_space}
use k8s_health_ai.Go.Errors.{Error}
use k8s_health_ai.Action.{Action, lift, raise, ◌>>=◌}
use k8s_health_ai.Llm.{FailureContext, Diagnosis, Provider}
use k8s_health_ai.Llm.Messages.{ChatResponse, AzureChatResponse, OllamaChatResponse}
use k8s_health_ai.Llm.Services.{
  Services, HttpClient, HttpRequest, HttpResponse, read_diagnosis_text, is_success,
}
use k8s_health_ai.Llm.OpenAi.{
  OpenAiProvider, api_failure, first_choice, choice_text, chat_text, openai_client, read_chat,
  diagnose_openai,
}
use k8s_health_ai.Llm.AzureOpenAi.{
  AzureOpenAiProvider, azure_api_version, azure_client, azure_text, read_azure,
  diagnose_azure_openai,
}
use k8s_health_ai.Llm.Ollama.{OllamaProvider, ollama_client, read_ollama, diagnose_ollama}

-- an action that returns a value: its first part did, and so did the second part behind it
bind-ok :
    {S A B : Type 0} (m : Action S A) (f : A → Action S B) (s : S) {b : B}
    → ((m >>= f) s).0 ≡ ok b
    → (a : A) × ((m s).0 ≡ ok a) × ((f a (m s).1).0 ≡ ok b)
bind-ok m f s {b} h = elim (Outcome-cases (m s).0) [
  | inl (a, e) ↦ (a, e, rw e at h)
  | inr (x, e) ↦ absurd (cc (rw e at h))
]

-- no error, or one with an empty message
abbrev pub IsSilent : Option String → Type 0
IsSilent none = Unit
IsSilent (some msg) = msg ≡ ""

-- The reply that a diagnosis was read from, where `Carries raw content` says that the body `raw`
-- carries the text `content`.
pub record GoodReply {S : Type 0} (sv : Services S) (Carries : String → String → Type 0)
    (model : String) (resp : HttpResponse) (d : Diagnosis) : Type 0 where
  pub success : is_success resp ≡ true
  pub raw : String
  pub read : resp.body ≡ ok raw
  pub content : String
  pub carried : Carries raw content
  pub parsed : read_diagnosis_text sv.unmarshal model (trim_space content) ≡ ok d

api_failure-IsSilent : (o : Option String) → api_failure o ≡ none → IsSilent o
unfolding api_failure
api_failure-IsSilent none h = tt
api_failure-IsSilent (some msg) h = ground (arith, h, eq_iff msg "")

first_choice-ok :
    (name : String) (cs : List String) {t : String}
    → first_choice name cs ≡ ok t
    → (c : String) × (rest : List String) × (cs ≡ c ∷ rest) × (t ≡ trim_space c)
unfolding first_choice
first_choice-ok name [] h = absurd (ground (arith, h))
first_choice-ok name (c ∷ cs) h = (c, cs, refl, ground (arith, h))

choice_text-ok :
    (name : String) (error : Option String) (choices : List String) {t : String}
    → choice_text name error choices ≡ ok t
    → IsSilent error
      × ((c : String) × (rest : List String) × (choices ≡ c ∷ rest) × (t ≡ trim_space c))
unfolding choice_text
choice_text-ok name error choices {t} h = elim (Option-cases (api_failure error)) [
  | inl e ↦ (api_failure-IsSilent error e, first_choice-ok name choices (ground (arith, e, h)))
  | inr (msg, e) ↦ absurd (ground (arith, e, h))
]

-- the backends over HTTP
pub data HttpBackend (S : Type 0) : Type 0 where
  openai : OpenAiProvider S → HttpBackend S
  azure_openai : AzureOpenAiProvider S → HttpBackend S
  ollama : OllamaProvider S → HttpBackend S

module _ {S : Type 0} (sv : Services S) where
  abbrev pub diagnose_by : HttpBackend S → Provider S
  diagnose_by (openai o) = diagnose_openai sv o
  diagnose_by (azure_openai a) = diagnose_azure_openai sv a
  diagnose_by (ollama o) = diagnose_ollama sv o

  abbrev pub client_of : HttpBackend S → HttpClient S
  client_of (openai o) = openai_client sv o
  client_of (azure_openai a) = azure_client sv a
  client_of (ollama o) = ollama_client sv o

  -- the name of the model, where the answer has none
  abbrev pub model_of : HttpBackend S → String
  model_of (openai o) = o.model
  model_of (azure_openai a) = a.deployment
  model_of (ollama o) = o.model

  -- the URL of the request
  abbrev pub HasUrl : HttpBackend S → String → Type 0
  HasUrl (openai o) url = url ≡ o.base_url <> "/chat/completions"
  HasUrl (azure_openai a) url =
      sv.with_query
        (a.endpoint <> "/openai/deployments/" <> sv.path_escape a.deployment <> "/chat/completions")
        "api-version" azure_api_version
      ≡ ok url
  HasUrl (ollama o) url = url ≡ o.base_url <> "/api/chat"

  -- The text in a body: the first choice of a reply with no error message, or Ollama's message.
  abbrev pub Carries : HttpBackend S → String → String → Type 0
  Carries (openai o) raw content =
      (out : ChatResponse) × (sv.unmarshal_chat raw ≡ ok out)
      × IsSilent out.error
      × (others : List String) × (out.choices ≡ content ∷ others)
  Carries (azure_openai a) raw content =
      (out : AzureChatResponse) × (sv.unmarshal_azure raw ≡ ok out)
      × IsSilent out.error
      × (others : List String) × (out.choices ≡ content ∷ others)
  Carries (ollama o) raw content =
      (out : OllamaChatResponse) × (sv.unmarshal_ollama raw ≡ ok out) × (out.content ≡ content)

  -- Behind a reply: its body is decoded, a text found, and the diagnosis parsed.
  decoded-GoodReply :
      {Out : Type 0} (Carried : String → String → Type 0) (model : String) (resp : HttpResponse)
      (raw : String) (refusal : Error) (decode : Outcome Error Out)
      (find : Out → Outcome Error String) (s : S) {d : Diagnosis}
      → ((out : Out) (t : String)
          → decode ≡ ok out
          → find out ≡ ok t
          → (c : String) × Carried raw c × (t ≡ trim_space c))
      → resp.body ≡ ok raw
      → ((if is_success resp
            then (do
              out ← lift decode
              text ← lift (find out)
              lift (read_diagnosis_text sv.unmarshal model text))
            else raise refusal)
          s).0
        ≡ ok d
      → GoodReply sv Carried model resp d
  decoded-GoodReply Carried model resp raw refusal decode find s {d} finds body h =
      elim (Bool-cases (is_success resp)) [
        | inl e ↦
            let (out, decoded, h1) = bind-ok (lift decode) _ s {b = d} (rw e at h) in
            let (text, found, h2) = bind-ok (lift (find out)) _ s {b = d} h1 in
            let (content, carried, same) = finds out text decoded found in
            record {
              success = e;
              raw = raw;
              read = body;
              content = content;
              carried = carried;
              parsed = rw same at h2;
            }
        | inr e ↦ absurd (cc (rw e at h))
      ]

  read_chat-GoodReply :
      (o : OpenAiProvider S) (resp : HttpResponse) (raw : String) (s : S) {d : Diagnosis}
      → resp.body ≡ ok raw
      → (read_chat sv o.model resp raw s).0 ≡ ok d
      → GoodReply sv (Carries (openai o)) o.model resp d
  unfolding read_chat chat_text
  read_chat-GoodReply o resp raw s =
      decoded-GoodReply (Carries (openai o)) o.model resp raw _ (sv.unmarshal_chat raw) chat_text s
        λ out t decoded found.
          let (silent, (first, others, choices, same)) =
            choice_text-ok "openai" out.error out.choices found in
          (first, (out, decoded, silent, others, choices), same)

  read_azure-GoodReply :
      (a : AzureOpenAiProvider S) (resp : HttpResponse) (raw : String) (s : S) {d : Diagnosis}
      → resp.body ≡ ok raw
      → (read_azure sv a.deployment resp raw s).0 ≡ ok d
      → GoodReply sv (Carries (azure_openai a)) a.deployment resp d
  unfolding read_azure azure_text
  read_azure-GoodReply a resp raw s =
      decoded-GoodReply (Carries (azure_openai a)) a.deployment resp raw _ (sv.unmarshal_azure raw)
        azure_text s
        λ out t decoded found.
          let (silent, (first, others, choices, same)) =
            choice_text-ok "azure openai" out.error out.choices found in
          (first, (out, decoded, silent, others, choices), same)

  read_ollama-GoodReply :
      (o : OllamaProvider S) (resp : HttpResponse) (raw : String) (s : S) {d : Diagnosis}
      → resp.body ≡ ok raw
      → (read_ollama sv o.model resp raw s).0 ≡ ok d
      → GoodReply sv (Carries (ollama o)) o.model resp d
  unfolding read_ollama
  read_ollama-GoodReply o resp raw s =
      decoded-GoodReply (Carries (ollama o)) o.model resp raw _ (sv.unmarshal_ollama raw)
        (λ out. ok (trim_space out.content)) s
        λ out t decoded found. (out.content, (out, decoded, refl), cc)

  -- The client's good reply to one request of the backend's URL.
  abbrev pub Replied : HttpBackend S → S → Diagnosis → Type 0
  Replied b s d =
      (request : HttpRequest) × HasUrl b request.url
      × (resp : HttpResponse) × ((client_of b request s).0 ≡ ok resp)
      × GoodReply sv (Carries b) (model_of b) resp d

  -- A diagnosis of a backend over HTTP was read from the client's answer to a request of the
  -- backend's URL: a reply with a status of 200 to 299, whose body was read and decoded. For OpenAI
  -- and Azure, it carries no error message and at least one choice, and its text is the content of
  -- the first; for Ollama, it is that of the message. The diagnosis is what this text, trimmed,
  -- parses to, with the model filled in.
  pub diagnose_by-Replied :
      (b : HttpBackend S) (fc : FailureContext) (s : S) {d : Diagnosis}
      → (diagnose_by b fc s).0 ≡ ok d
      → Replied b s d
  unfolding diagnose_openai diagnose_azure_openai diagnose_ollama
  diagnose_by-Replied (openai o) fc s {d} h =
      let (body, e1, h1) = bind-ok (lift (sv.marshal_chat _)) _ s {b = d} h in
      let (u, e2, h2) = bind-ok (lift (sv.check_url _)) _ s {b = d} h1 in
      let (resp, e3, h3) = bind-ok (openai_client sv o _) _ s {b = d} h2 in
      let (raw, e4, h4) = bind-ok (lift resp.body) _ _ {b = d} h3 in
      (_, refl, resp, e3, read_chat-GoodReply o resp raw _ e4 h4)
  diagnose_by-Replied (azure_openai a) fc s {d} h =
      let (url, e0, h0) = bind-ok (lift (sv.with_query _ _ _)) _ s {b = d} h in
      let (body, e1, h1) = bind-ok (lift (sv.marshal_azure _)) _ s {b = d} h0 in
      let (u, e2, h2) = bind-ok (lift (sv.check_url _)) _ s {b = d} h1 in
      let (resp, e3, h3) = bind-ok (azure_client sv a _) _ s {b = d} h2 in
      let (raw, e4, h4) = bind-ok (lift resp.body) _ _ {b = d} h3 in
      (_, e0, resp, e3, read_azure-GoodReply a resp raw _ e4 h4)
  diagnose_by-Replied (ollama o) fc s {d} h =
      let (body, e1, h1) = bind-ok (lift (sv.marshal_ollama _)) _ s {b = d} h in
      let (u, e2, h2) = bind-ok (lift (sv.check_url _)) _ s {b = d} h1 in
      let (resp, e3, h3) = bind-ok (ollama_client sv o _) _ s {b = d} h2 in
      let (raw, e4, h4) = bind-ok (lift resp.body) _ _ {b = d} h3 in
      (_, refl, resp, e3, read_ollama-GoodReply o resp raw _ e4 h4)
