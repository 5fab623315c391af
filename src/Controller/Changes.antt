-- ===== src/Controller/Changes.antt =====
-- internal/controller/pod_controller.go: the diagnosis that is created, the functions that change it,
-- and the test whether it is current.
use k8s_health_ai.Prelude.{ℕ, String, Bool, ◌&&◌, Option, none, some, List, [], ◌==◌}
use k8s_health_ai.Kube.{Pod}
use k8s_health_ai.Api.{
  ClusterDiagnosis, empty_status, phase_analyzing, phase_ready, phase_error, insert,
}
use k8s_health_ai.Detect.{FailureType}
use k8s_health_ai.Llm.{Diagnosis}
use k8s_health_ai.Collect.{build_resource_usage}
use k8s_health_ai.Remediation.{for_failure}
use k8s_health_ai.Controller.Rate.{last_llm_call_annotation}
use k8s_health_ai.Controller.Patch.{Mutation}

-- the object that reconcileInner creates
unfoldable pub new_diagnosis : Pod → FailureType → String → ClusterDiagnosis
new_diagnosis pod ft name = record {
  metadata = record {
    name = name;
    namespace = pod.namespace;
    annotations = none;
    owner_references = [];
    resource_version = "";
    creation_timestamp = none;
  };
  spec = record {
    target_ref = record { kind = "Pod"; namespace = pod.namespace; name = pod.name };
    failure_type = ft;
    collected_at = none;
  };
  status = empty_status;
}

-- the three functions handed to patchDiagnosisStatus, and the one handed to patchDiagnosisMeta
unfoldable pub set_analyzing : Mutation
set_analyzing cur = record cur {
  status = record cur.status { phase = phase_analyzing; message = "" };
}

unfoldable pub set_ready : Pod → FailureType → String → String → ℕ → Diagnosis → Mutation
set_ready pod ft container fp now diag cur = record cur {
  status = record cur.status {
    phase = phase_ready;
    root_cause = diag.root_cause;
    severity = diag.severity;
    recommended_fix = diag.recommended_fix;
    model = diag.model;
    last_updated = some now;
    observed_fingerprint = fp;
    message = "";
    resource_usage = build_resource_usage (some pod) container;
    remediations = for_failure ft;
  };
}

unfoldable pub set_error : String → Mutation
set_error msg cur = record cur { status = record cur.status { phase = phase_error; message = msg } }

abbrev pub map_or_empty : Option (List (String × String)) → List (String × String)
map_or_empty none = []
map_or_empty (some m) = m

unfoldable pub set_last_llm_call : String → Mutation
set_last_llm_call ts cur = record cur {
  metadata = record cur.metadata {
    annotations = some (insert last_llm_call_annotation ts (map_or_empty cur.metadata.annotations));
  };
}

-- `Phase == Ready && ObservedFingerprint == fp`
unfoldable pub is_current : ClusterDiagnosis → String → Bool
is_current cd fp = cd.status.phase == phase_ready && cd.status.observed_fingerprint == fp
