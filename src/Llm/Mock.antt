-- ===== src/Llm/Mock.antt =====
-- internal/llm/mock.go. The encoding of a diagnosis as JSON, whose result the source drops, does
-- not fail for a struct of strings.
use k8s_health_ai.Prelude.{String, ◌<>◌}
use k8s_health_ai.Action.{pure}
use k8s_health_ai.Llm.{FailureContext, Diagnosis, Provider}
use k8s_health_ai.Llm.Services.{or_default}

unfoldable pub mock_diagnosis : String → FailureContext → Diagnosis
unfolding or_default
mock_diagnosis model fc = record {
  root_cause =
      "Mock analysis for " <> fc.container <> " on pod " <> fc.namespace <> "/" <> fc.pod
      <> ": failure " <> fc.failure_type
      <> " — check container command, resources, and image name.";
  severity = "high";
  recommended_fix =
      "Inspect events and logs above; adjust limits or image reference; verify registry credentials for image pull failures.";
  model = or_default model "mock";
}

-- MockProvider with its field Model
unfoldable pub mock_provider : {S : Type 0} → String → Provider S
mock_provider model fc = pure (mock_diagnosis model fc)
