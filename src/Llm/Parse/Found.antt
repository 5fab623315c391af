-- ===== src/Llm/Parse/Found.antt =====
-- internal/llm/provider.go: what text ParseDiagnosisJSON hands to the decoder, and what it makes of the
-- decoder's answer.
use Prim.Native.String.{◌∷◌}
use text.Mathlib.TextLemmas.{cons-append, append_assoc}
use k8s_health_ai.Prelude.{
  ◌≡◌, refl, ap, ◌∙◌, ◌⊎◌, inl, inr, String, Option, none, some, Outcome, ok, err, ◌<>◌, arith,
  Outcome-cases, Bool-cases, eq_iff, true, ◌↔◌,
}
use k8s_health_ai.Go.Strings.{trim_space, to_lower, last_index, rune_count}
use k8s_health_ai.Go.Strings.Laws.{Lacks}
use k8s_health_ai.Go.Strings.Positions.{
  rune_count-append, index-append, index-Lacks, last_index-append, last_index-Lacks, split_first,
  split_last, Lacks-append,
}
use k8s_health_ai.Go.Errors.{Error}
use k8s_health_ai.Llm.{Diagnosis}
use k8s_health_ai.Llm.Parse.{
  is_severity, normalize, embedded, parse_embedded, parse_trimmed, parse_diagnosis_json,
}
use k8s_health_ai.Llm.Parse.Severity.{IsSeverity}
use k8s_health_ai.Llm.Parse.Wrapped.{opening, closing, braces, in_prose, embedded-in_prose}

-- An object that stands in the text, from the first opening to the last closing brace.
pub record Within (raw object : String) : Type 0 where
  pub before : String
  pub body : String
  pub after : String
  pub split : raw ≡ in_prose before body after
  pub first : Lacks opening before
  pub last : Lacks closing after
  pub braced : object ≡ braces body

-- a text without a closing brace behind the first opening one
embedded-unclosed :
    (pre rest : String)
    → Lacks opening pre
    → Lacks closing rest
    → embedded (pre <> (opening ∷ rest)) ≡ none
unfolding embedded
embedded-unclosed pre rest h k = elim (split_last closing pre) [
  | inl none_before ↦
      let lacks : Lacks closing (pre <> (opening ∷ rest)) =
        Lacks-append closing pre (opening ∷ rest) none_before (omega arith, k) in
      ground (
        arith,
        last_index-Lacks closing (pre <> (opening ∷ rest)) lacks,
        index-append opening pre rest h,
      )
  | inr (a, b, same, none_after) ↦
      let regrouped : (pre <> (opening ∷ rest)) ≡ (a <> (closing ∷ (b <> (opening ∷ rest)))) =
        rw (same, append_assoc a (closing ∷ b) (opening ∷ rest), cons-append) refl in
      let last : last_index (pre <> (opening ∷ rest)) closing ≡ some (rune_count a) = rw regrouped (
        last_index-append closing a (b <> (opening ∷ rest))
          (Lacks-append closing b (opening ∷ rest) none_after (omega arith, k))) in
      let longer = ap rune_count same ∙ rune_count-append a (closing ∷ b) in
      ground (arith, last, index-append opening pre rest h, longer)
]

embedded-unopened : (raw : String) → Lacks opening raw → embedded raw ≡ none
unfolding embedded
embedded-unopened raw h = ground (arith, index-Lacks opening raw h)

embedded_unique : {o : Option String} {s t : String} → o ≡ some s → o ≡ some t → s ≡ t
embedded_unique h k = cc (h, k)

embedded-Within : (raw object : String) → embedded raw ≡ some object → Within raw object
embedded-Within raw object h = elim (split_first opening raw) [
  | inl lacks ↦ absurd (cc (embedded-unopened raw lacks, h))
  | inr (pre, rest, same, first) ↦ elim (split_last closing rest) [
    | inl unclosed ↦ absurd (cc (embedded-unclosed pre rest first unclosed, same, h))
    | inr (body, post, same', last) ↦
        let split : raw ≡ in_prose pre body post = rw (same, same') refl in
        record {
          before = pre;
          body = body;
          after = post;
          split = split;
          first = first;
          last = last;
          braced = embedded_unique (rw split at h) (embedded-in_prose pre body post first last);
        }
  ]
]

-- What a diagnosis is made of: an answer of the decoder for a text, the whole trimmed one or, where
-- that is refused, the object within. Only its severity may differ: in lower case and
-- without the space around it, or "medium" where it then is none of the four.
pub record Parsed (unmarshal : String → Outcome Error Diagnosis) (raw : String) (d : Diagnosis)
    : Type 0 where
  pub text : String
  pub decoded : Diagnosis
  pub source :
      (text ≡ trim_space raw)
      ⊎ ((e : Error) × (unmarshal (trim_space raw) ≡ err e) × Within (trim_space raw) text)
  pub read : unmarshal text ≡ ok decoded
  pub others : d ≡ record decoded { severity = d.severity }
  pub severity :
      (IsSeverity (to_lower (trim_space decoded.severity))
        × (d.severity ≡ to_lower (trim_space decoded.severity)))
      ⊎ ((¬ IsSeverity (to_lower (trim_space decoded.severity))) × (d.severity ≡ "medium"))

is_severity_iff : (s : String) → (is_severity s ≡ true) ↔ IsSeverity s
unfolding is_severity
is_severity_iff s = (
  λ h. ground (arith, eq_iff s "low", eq_iff s "medium", eq_iff s "high", eq_iff s "critical"),
  λ h. ground (arith, eq_iff s "low", eq_iff s "medium", eq_iff s "high", eq_iff s "critical"),
)

normalize_cases :
    (d : Diagnosis)
    → (IsSeverity (to_lower (trim_space d.severity))
        × ((normalize d).severity ≡ to_lower (trim_space d.severity)))
      ⊎ ((¬ IsSeverity (to_lower (trim_space d.severity))) × ((normalize d).severity ≡ "medium"))
unfolding normalize
normalize_cases d =
    let s = to_lower (trim_space d.severity) in
    elim (Bool-cases (is_severity s)) [
      | inl e ↦ inl ((is_severity_iff s).0 e, ground (arith, e))
      | inr e ↦ inr (λ h. cc ((is_severity_iff s).1 h, e), ground (arith, e))
    ]

module _ (unmarshal : String → Outcome Error Diagnosis) where
  normalize-Parsed :
      (raw text : String) (decoded : Diagnosis)
      → (text ≡ trim_space raw)
        ⊎ ((e : Error) × (unmarshal (trim_space raw) ≡ err e) × Within (trim_space raw) text)
      → unmarshal text ≡ ok decoded
      → Parsed unmarshal raw (normalize decoded)
  unfolding normalize
  normalize-Parsed raw text decoded source h = record {
    text = text;
    decoded = decoded;
    source = source;
    read = h;
    others = refl;
    severity = normalize_cases decoded;
  }

  parse_embedded-Parsed :
      (raw : String) (o : Option String) (e : Error) {d : Diagnosis}
      → unmarshal (trim_space raw) ≡ err e
      → embedded (trim_space raw) ≡ o
      → parse_embedded unmarshal o e ≡ ok d
      → Parsed unmarshal raw d
  unfolding parse_embedded
  parse_embedded-Parsed raw none e refused found h = cc
  parse_embedded-Parsed raw (some t) e {d} refused found h = elim (Outcome-cases (unmarshal t)) [
    | inl (d0, eq) ↦
        let same : d ≡ normalize d0 = ground (arith, eq) in
        rw same (
          normalize-Parsed raw t d0 (inr (e, refused, embedded-Within (trim_space raw) t found)) eq)
    | inr (e0, eq) ↦ absurd (ground (arith, eq))
  ]

  -- A diagnosis that ParseDiagnosisJSON returns is the decoder's for the trimmed text, or, where the
  -- decoder refuses that, for the object in it from the first opening to the last closing brace.
  -- Its severity is the decoder's in lower case without the space around it, where that is one of
  -- the four, and "medium" otherwise; nothing else is changed.
  pub parse_diagnosis_json-Parsed :
      (raw : String) {d : Diagnosis}
      → parse_diagnosis_json unmarshal raw ≡ ok d
      → Parsed unmarshal raw d
  unfolding parse_diagnosis_json parse_trimmed
  parse_diagnosis_json-Parsed raw {d} h = elim (Outcome-cases (unmarshal (trim_space raw))) [
    | inl (d0, eq) ↦
        let same : d ≡ normalize d0 = ground (arith, eq) in
        rw same (normalize-Parsed raw (trim_space raw) d0 (inl refl) eq)
    | inr (e0, eq) ↦
        parse_embedded-Parsed raw (embedded (trim_space raw)) e0 {d = d} eq refl
          (ground (arith, eq))
  ]
