-- ===== src/Controller/Lifecycle.antt =====
-- internal/controller/pod_controller.go: the life of a diagnosis, as a step relation on the objects
-- that the API server stores.
pub mod Sound
pub mod Watch
pub mod Maintained
pub mod Ordered
pub mod Server
pub mod Stored
use k8s_health_ai.Prelude.{ℕ, ◌≡◌, String, true, some}
use k8s_health_ai.Kube.{Pod}
use k8s_health_ai.Api.{ClusterDiagnosis}
use k8s_health_ai.Detect.{FailureType, classify, fingerprint}
use k8s_health_ai.Llm.{Diagnosis}
use k8s_health_ai.Llm.Reliable.{IsComplete}
use k8s_health_ai.Controller.Patch.{Writer, status_writer, metadata_writer}
use k8s_health_ai.Controller.Changes.{
  new_diagnosis, set_analyzing, set_ready, set_error, set_last_llm_call,
}

-- One write of the reconciler: the writer, the object that was read, the object that is written.
pub data Step : Writer → ClusterDiagnosis → ClusterDiagnosis → Type 0 where
  begin : {a b : ClusterDiagnosis} → b ≡ set_analyzing a → Step status_writer a b
  settle :
      {a b : ClusterDiagnosis} (pod : Pod) (ft : FailureType) (container : String) (now : ℕ)
      (diag : Diagnosis)
      → classify (some pod) ≡ (ft, container, true)
      → IsComplete diag
      → b ≡ set_ready pod ft container (fingerprint pod container) now diag a
      → Step status_writer a b
  break : {a b : ClusterDiagnosis} (msg : String) → b ≡ set_error msg a → Step status_writer a b
  stamp :
      {a b : ClusterDiagnosis} (ts : String) → b ≡ set_last_llm_call ts a → Step metadata_writer a b

-- Two objects that differ at most in what the API server itself keeps: the owners, the resource
-- version and the time of creation.
pub record SameContent (a b : ClusterDiagnosis) : Type 0 where
  pub name : b.metadata.name ≡ a.metadata.name
  pub namespace : b.metadata.namespace ≡ a.metadata.namespace
  pub annotations : b.metadata.annotations ≡ a.metadata.annotations
  pub spec : b.spec ≡ a.spec
  pub status : b.status ≡ a.status

-- The objects that a life may come to: it begins with a new diagnosis of a pod that is flagged.
pub data Reach : ClusterDiagnosis → Type 0 where
  born :
      {cd : ClusterDiagnosis} (pod : Pod) (ft : FailureType) (container name : String)
      → classify (some pod) ≡ (ft, container, true)
      → SameContent (new_diagnosis pod ft name) cd
      → Reach cd
  later : {writer : Writer} {a b : ClusterDiagnosis} → Reach a → Step writer a b → Reach b
  kept : {a b : ClusterDiagnosis} → Reach a → SameContent a b → Reach b
