-- ===== src/Llm/Parse/Wrapped.antt =====
-- internal/llm/provider.go, `ParseDiagnosisJSON`: an object that stands in prose is found.
use Prim.Native.Char.{Char, code}
use Prim.Native.String.{◌∷◌}
use text.Mathlib.TextLemmas.{nil-append, cons-append, append_assoc}
use k8s_health_ai.Prelude.{
  suc, ◌+◌, ◌-◌, ◌∙◌, false, ◌≡◌, ◌≢◌, refl, sym, ap, String, Outcome, ok, err, some, ◌<>◌, arith,
}
use k8s_health_ai.Go.Strings.{
  last_index, rune_count, slice, trim_left, trim_right, trim_space, is_space,
}
use k8s_health_ai.Go.Strings.Laws.{Lacks}
use k8s_health_ai.Go.Strings.Positions.{
  rune_count-append, index-append, last_index-append, take_chars-append, drop_chars-append,
}
use k8s_health_ai.Go.Strings.Trim.{
  trim_left-append, trim_right-append, AllChars-trim_left, AllChars-trim_right,
}
use k8s_health_ai.Go.Errors.{Error}
use k8s_health_ai.Llm.{Diagnosis}
use k8s_health_ai.Llm.Parse.{
  normalize, embedded, parse_embedded, parse_trimmed, parse_diagnosis_json,
}

abbrev pub opening : Char
opening = "{"

abbrev pub closing : Char
closing = "}"

-- an object's text: braces round a body
abbrev pub braces : String → String
braces body = opening ∷ (body <> "}")

-- prose, an object, and prose again
abbrev pub in_prose : String → String → String → String
in_prose pre body post = pre <> (opening ∷ (body <> (closing ∷ post)))

regroup :
    (pre body post : String)
    → in_prose pre body post ≡ ((pre <> (opening ∷ body)) <> (closing ∷ post))
regroup pre body post = sym (
    append_assoc pre (opening ∷ body) (closing ∷ post)
    ∙ ap (λ r. pre <> r) (cons-append opening body (closing ∷ post)))

last_index-in_prose :
    (pre body post : String)
    → Lacks closing post
    → last_index (in_prose pre body post) closing ≡ some (rune_count pre + suc (rune_count body))
unfolding rune_count
last_index-in_prose pre body post k = rw (regroup pre body post) (
    last_index-append closing (pre <> (opening ∷ body)) post k
    ∙ ap some (rune_count-append pre (opening ∷ body)))

object-append :
    (body post : String) → (opening ∷ (body <> (closing ∷ post))) ≡ (braces body <> post)
object-append body post = rw (cons-append, append_assoc, cons-append, nil-append)

rune_count-braces : (body : String) → rune_count (braces body) ≡ suc (suc (rune_count body))
unfolding rune_count
rune_count-braces body = ap suc (rune_count-append body "}" ∙ omega arith)

slice-in_prose :
    (pre body post : String)
    → slice (in_prose pre body post) (rune_count pre) (rune_count pre + suc (rune_count body) + 1)
      ≡ braces body
unfolding slice
slice-in_prose pre body post =
    let width : rune_count pre + suc (rune_count body) + 1 - rune_count pre
        ≡ rune_count (braces body) =
      omega (arith, rune_count-braces body) in
    rw (drop_chars-append, width)
      (rw (object-append body post) (take_chars-append (braces body) post))

pub embedded-in_prose :
    (pre body post : String)
    → Lacks opening pre
    → Lacks closing post
    → embedded (in_prose pre body post) ≡ some (braces body)
unfolding embedded
embedded-in_prose pre body post h k = ground (
  arith,
  index-append opening pre (body <> (closing ∷ post)) h,
  last_index-in_prose pre body post k,
  slice-in_prose pre body post,
)

brace_is_solid : (is_space (code opening) ≡ false) × (is_space (code closing) ≡ false)
unfolding is_space
brace_is_solid = (refl, refl)

trim-in_prose :
    (pre body post : String)
    → trim_space (in_prose pre body post) ≡ in_prose (trim_left pre) body (trim_right post)
unfolding trim_space
trim-in_prose pre body post =
    ap trim_right (trim_left-append pre (body <> (closing ∷ post)) opening brace_is_solid.0)
    ∙ ap trim_right (regroup (trim_left pre) body post)
    ∙ trim_right-append (trim_left pre <> (opening ∷ body)) post closing brace_is_solid.1
    ∙ sym (regroup (trim_left pre) body (trim_right post))

-- An object between two pieces of prose is found, whatever the prose holds beside braces: where
-- the whole text is no object, and the object is decoded, the decoded diagnosis comes back with its
-- severity normalised. The prose in front holds no opening brace, the prose behind no closing one.
pub parse_in_prose :
    (unmarshal : String → Outcome Error Diagnosis) (pre body post : String) (d : Diagnosis)
    (e : Error)
    → Lacks opening pre
    → Lacks closing post
    → unmarshal (trim_space (in_prose pre body post)) ≡ err e
    → unmarshal (braces body) ≡ ok d
    → parse_diagnosis_json unmarshal (in_prose pre body post) ≡ ok (normalize d)
unfolding parse_diagnosis_json parse_trimmed parse_embedded
parse_in_prose unmarshal pre body post d e h k no_object object =
    let found : embedded (in_prose (trim_left pre) body (trim_right post)) ≡ some (braces body) =
      embedded-in_prose (trim_left pre) body (trim_right post)
        (AllChars-trim_left (λ c. c ≢ code opening) pre h)
        (AllChars-trim_right (λ c. c ≢ code closing) post k) in
    ground (arith, trim-in_prose pre body post, found)
