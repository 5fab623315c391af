-- ===== src/Diagctl/Usage.antt =====
-- cmd/diagctl/main.go: the texts that the commands print.
use k8s_health_ai.Prelude.{String, ◌<>◌}
use k8s_health_ai.Detect.{
  crash_loop_back_off, oom_killed, image_pull_back_off, init_container_error, pending_scheduling,
}

unfoldable pub explain_text : String
explain_text =
    "LLM environment variables (operator / manager)\n\n" <> "  LLM_PROVIDER\n"
    <> "    Selects the LLM backend: mock (default), bedrock, vertex, openai, azure-openai, ollama.\n\n"
    <> "  LLM_RPM\n"
    <> "    Optional requests-per-minute cap for LLM calls (default 120). Set to 0 or negative to disable limiting.\n\n"
    <> "Provider-specific configuration is read by the manager (not diagctl), for example:\n"
    <> "  AWS_REGION, BEDROCK_MODEL_ID (Bedrock); VERTEX_MODEL (Vertex);\n"
    <> "  OPENAI_API_KEY, OPENAI_BASE_URL, OPENAI_MODEL (OpenAI);\n"
    <> "  AZURE_OPENAI_ENDPOINT, AZURE_OPENAI_API_KEY, AZURE_OPENAI_DEPLOYMENT (Azure OpenAI);\n"
    <> "  OLLAMA_HOST, OLLAMA_MODEL (Ollama).\n\n"
    <> "Failure types (spec.failureType on ClusterDiagnosis)\n\n"
    <> "  These are the primary failure classes the operator detects from Pods:\n\n" <> "  "
    <> crash_loop_back_off <> " — container exits and restarts repeatedly.\n" <> "  " <> oom_killed
    <> " — process terminated due to memory limit.\n" <> "  " <> image_pull_back_off
    <> " — image cannot be pulled (includes ErrImagePull / registry issues).\n" <> "  "
    <> init_container_error <> " — init container failed or stuck in a bad waiting state.\n" <> "  "
    <> pending_scheduling
    <> " — pod pending with scheduling or config issues (e.g. unschedulable).\n"

unfoldable pub global_usage : String
global_usage =
    "diagctl — list, get, delete, or explain ClusterDiagnosis resources (health.k8sai.io/v1alpha1).\n\n"
    <> "Usage:\n" <> "  diagctl <command> [arguments]\n\n" <> "Commands:\n"
    <> "  list      List ClusterDiagnosis objects (kubectl-style columns or JSON)\n"
    <> "  get       Print one ClusterDiagnosis as YAML (text) or JSON\n"
    <> "  delete    Delete a ClusterDiagnosis (requires --yes)\n"
    <> "  explain   Static help for LLM_* env vars and failure types (no cluster)\n\n"
    <> "Global flags (list, get, delete):\n"
    <> "  -n string    Namespace; empty lists all namespaces. get/delete resolve by name across namespaces if omitted.\n"
    <> "  -o string     Output: text (default) or json\n\n" <> "Examples:\n" <> "  diagctl list\n"
    <> "  diagctl list -n kube-system -o json\n"
    <> "  diagctl get my-diagnosis-abc -n kube-system\n" <> "  diagctl get my-diagnosis-abc\n"
    <> "  diagctl delete my-diagnosis-abc -n kube-system --yes\n" <> "  diagctl explain\n"

unfoldable pub list_usage : String
list_usage =
    "Usage: diagctl list [-n namespace] [-o text|json]\n\n"
    <> "List ClusterDiagnosis resources. Uses the current kubeconfig or in-cluster credentials.\n\n"
    <> "Flags:\n" <> "  -n string   Namespace filter; omit to include all namespaces\n"
    <> "  -o string   text (table) or json (ClusterDiagnosisList); default text\n\n"
    <> "Examples:\n" <> "  diagctl list\n" <> "  diagctl list -n kube-system\n"
    <> "  diagctl list -o json\n"

unfoldable pub get_usage : String
get_usage =
    "Usage: diagctl get [-n namespace] [-o text|json] NAME\n\n"
    <> "Print one ClusterDiagnosis. With -o text, output is YAML. With -o json, output is JSON.\n\n"
    <> "Flags:\n" <> "  -n string   Namespace; if omitted, NAME must be unique cluster-wide\n"
    <> "  -o string   text (YAML) or json; default text\n\n" <> "Examples:\n"
    <> "  diagctl get my-diagnosis-abc -n kube-system\n"
    <> "  diagctl get my-diagnosis-abc -o json -n kube-system\n"

unfoldable pub delete_usage : String
delete_usage =
    "Usage: diagctl delete [-n namespace] [-o text|json] --yes NAME\n\n"
    <> "Delete a ClusterDiagnosis. Destructive; requires --yes (non-interactive).\n\n" <> "Flags:\n"
    <> "  -n string    Namespace; if omitted, NAME must be unique cluster-wide\n"
    <> "  -o string     Ignored for delete (reserved for consistency)\n"
    <> "  --yes        Required to actually delete\n\n" <> "Examples:\n"
    <> "  diagctl delete my-diagnosis-abc -n kube-system --yes\n"

unfoldable pub explain_usage : String
explain_usage =
    "Usage: diagctl explain\n\n"
    <> "Print static reference for LLM_* environment variables and failure types. No Kubernetes access.\n\n"
    <> "Examples:\n" <> "  diagctl explain\n"
