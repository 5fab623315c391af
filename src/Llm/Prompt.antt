-- ===== src/Llm/Prompt.antt =====
-- internal/llm/provider.go, `BuildUserPrompt`.
use k8s_health_ai.Prelude.{String, List, [], ◌∷◌, ◌<>◌}
use k8s_health_ai.Llm.{FailureContext}

-- the loop over the events
unfoldable pub event_lines : List String → String
event_lines [] = ""
event_lines (e ∷ es) = e <> "\n" <> event_lines es

unfoldable pub build_user_prompt : FailureContext → String
unfolding event_lines
build_user_prompt fc =
    "Analyze this Kubernetes pod failure.\n\n"
    <> "namespace: "
    <> fc.namespace
    <> "\npod: "
    <> fc.pod
    <> "\ncontainer: "
    <> fc.container
    <> "\nfailure_type: "
    <> fc.failure_type
    <> "\n\n--- pod.spec (YAML) ---\n"
    <> fc.pod_spec_yaml
    <> "\n\n--- recent events ---\n"
    <> event_lines fc.events
    <> "\n--- container logs (tail) ---\n"
    <> fc.logs_tail
    <> "\n"
