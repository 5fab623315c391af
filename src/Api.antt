-- ===== src/Api.antt =====
-- api/v1alpha1/clusterdiagnosis_types.go: the ClusterDiagnosis resource. A metav1.Time is the number
-- of nanoseconds since an origin that lies before every instant the program meets. A Go map is an
-- association list.
use k8s_health_ai.Prelude.{
  ℕ, String, Option, none, some, List, [], ◌∷◌, ◌==◌, if◌then◌else◌, first_some,
}

pub record TargetRef : Type 0 where
  pub kind : String
  pub namespace : String
  pub name : String

pub record ResourceUsage : Type 0 where
  pub cpu_request : String
  pub cpu_limit : String
  pub memory_request : String
  pub memory_limit : String

pub record ClusterDiagnosisSpec : Type 0 where
  pub target_ref : TargetRef
  pub failure_type : String
  pub collected_at : Option ℕ

-- metav1.Condition
pub record Condition : Type 0 where
  pub type : String
  pub status : String
  pub reason : String
  pub message : String

pub record ClusterDiagnosisStatus : Type 0 where
  pub phase : String
  pub root_cause : String
  pub severity : String
  pub recommended_fix : String
  pub model : String
  pub last_updated : Option ℕ
  pub conditions : List Condition
  pub message : String
  pub observed_fingerprint : String
  pub resource_usage : Option ResourceUsage
  pub remediations : List String

abbrev pub phase_pending : String
phase_pending = "Pending"

abbrev pub phase_analyzing : String
phase_analyzing = "Analyzing"

abbrev pub phase_ready : String
phase_ready = "Ready"

abbrev pub phase_error : String
phase_error = "Error"

-- The fields of metav1.ObjectMeta that the source reads or writes; `annotations` may be a nil map.
pub record ObjectMeta : Type 0 where
  pub name : String
  pub namespace : String
  pub annotations : Option (List (String × String))
  pub owner_references : List TargetRef
  pub resource_version : String
  pub creation_timestamp : Option ℕ

pub record ClusterDiagnosis : Type 0 where
  pub metadata : ObjectMeta
  pub spec : ClusterDiagnosisSpec
  pub status : ClusterDiagnosisStatus

-- The fields of metav1.ListMeta.
pub record ListMeta : Type 0 where
  pub resource_version : String
  pub continue_token : String

pub record ClusterDiagnosisList : Type 0 where
  pub metadata : ListMeta
  pub items : List ClusterDiagnosis

-- the zero values of Go
abbrev pub empty_status : ClusterDiagnosisStatus
empty_status = record {
  phase = "";
  root_cause = "";
  severity = "";
  recommended_fix = "";
  model = "";
  last_updated = none;
  conditions = [];
  message = "";
  observed_fingerprint = "";
  resource_usage = none;
  remediations = [];
}

-- `m[key]` on a Go map, `none` for a missing key; the list holds a key at most once
unfoldable pub lookup : {V : Type 0} → String → List (String × V) → Option V
lookup {V} key = first_some λ (entry : String × V). if entry.0 == key then some entry.1 else none

-- `m[key] = value`
unfoldable pub insert : {V : Type 0} → String → V → List (String × V) → List (String × V)
insert key value [] = (key, value) ∷ []
insert key value (entry ∷ rest) =
    if entry.0 == key then (key, value) ∷ rest else entry ∷ insert key value rest
