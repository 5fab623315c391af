-- ===== src/Detect/Names.antt =====
-- internal/detect/detect.go, `DiagnosisName`: the text that is hashed determines the pod and the
-- failure type.
use Prim.Native.Char.{Char}
use Prim.Native.String.{◌∷◌}
use text.Mathlib.TextLemmas.{nil-append, cons-append, tail-eq_of_cons-eq}
use k8s_health_ai.Prelude.{◌≡◌, refl, String, ◌<>◌}
use k8s_health_ai.Go.Strings.Laws.{Lacks, cut_inj}
use k8s_health_ai.Detect.{hash_input}

abbrev pub slash : Char
slash = "/"

slash-append : (s : String) → ("/" <> s) ≡ slash ∷ s
slash-append s = rw (cons-append, nil-append)

after_slash :
    (a a' b b' : String)
    → Lacks slash a
    → Lacks slash a'
    → (a <> "/" <> b) ≡ (a' <> "/" <> b')
    → (a ≡ a') × (b ≡ b')
after_slash a a' b b' h h' e =
    let (same, rest) =
      cut_inj slash a a' (slash ∷ b) (slash ∷ b') h h' refl refl
        (rw (slash-append b, slash-append b') at e) in
    (same, tail-eq_of_cons-eq rest)

-- Kubernetes allows no slash in the name of a namespace or of a pod. Under that, two triples with
-- the same hash input are equal, whatever the failure type's text.
pub hash_input_inj :
    (ns ns' pod pod' ft ft' : String)
    → Lacks slash ns
    → Lacks slash ns'
    → Lacks slash pod
    → Lacks slash pod'
    → hash_input ns pod ft ≡ hash_input ns' pod' ft'
    → (ns ≡ ns') × (pod ≡ pod') × (ft ≡ ft')
unfolding hash_input
hash_input_inj ns ns' pod pod' ft ft' h h' k k' e =
    let (same_ns, rest) = after_slash ns ns' (pod <> "/" <> ft) (pod' <> "/" <> ft') h h' e in
    let (same_pod, same_ft) = after_slash pod pod' ft ft' k k' rest in (same_ns, same_pod, same_ft)
