-- ===== src/Diagctl/Console.antt =====
-- cmd/diagctl/main.go: what a command acts on. The client of the cluster, the encoders and the
-- clock are functions over a state of their own; what is printed, and the calls of the cluster, are
-- noted.
use k8s_health_ai.Prelude.{ℕ, String, Bool, Option, Outcome, ok, List, ◌∷◌, ◌<>◌}
use k8s_health_ai.Go.Errors.{Error}
use k8s_health_ai.Action.{Action}
use k8s_health_ai.Kube.{Key}
use k8s_health_ai.Api.{ClusterDiagnosis, ClusterDiagnosisList}

-- A call of the cluster: the diagnoses of a namespace or of all, one diagnosis, or its deletion.
pub data Request : Type 0 where
  listed : Option String → Request
  fetched : Key → Request
  deleted : ClusterDiagnosis → Request

pub record Cluster (S : Type 0) : Type 0 where
  -- ctrl.GetConfig and client.New
  pub get_config : Action S (Unit {0})
  pub new_client : Action S (Unit {0})
  -- List, in a namespace or in all; Get; Delete
  pub list : Option String → Action S ClusterDiagnosisList
  pub get : Key → Action S ClusterDiagnosis
  pub delete : ClusterDiagnosis → Action S (Unit {0})
  -- time.Now, in nanoseconds
  pub now : S → ℕ × S
  -- what the JSON encoder writes, with its indent, and yaml.Marshal
  pub encode_list : ClusterDiagnosisList → Outcome Error String
  pub encode : ClusterDiagnosis → Outcome Error String
  pub marshal : ClusterDiagnosis → Outcome Error String
  -- sort.Slice on diagnoses
  pub sort_items :
      (ClusterDiagnosis → ClusterDiagnosis → Bool) → List ClusterDiagnosis → List ClusterDiagnosis
  -- the verb %q
  pub quote : String → String

-- `requests` has the latest request first.
pub record Console (S : Type 0) : Type 0 where
  pub state : S
  pub stdout : String
  pub stderr : String
  pub requests : List Request

abbrev pub Run : Type 0 → Type 0 → Type 0
Run S A = Action (Console S) A

module _ {S : Type 0} where
  abbrev pub print_out : String → Run S (Unit {0})
  print_out s c = (ok tt, record c { stdout = c.stdout <> s })

  abbrev pub print_err : String → Run S (Unit {0})
  print_err s c = (ok tt, record c { stderr = c.stderr <> s })

module _ {S A : Type 0} where
  -- an operation on the state that is no request of a diagnosis
  abbrev pub quietly : Action S A → Run S A
  quietly m c = let (r, s) = m c.state in (r, record c { state = s })

  abbrev pub ask : Request → Action S A → Run S A
  ask request m c =
      let (r, s) = m c.state in (r, record c { state = s; requests = request ∷ c.requests })
