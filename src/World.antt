-- ===== src/World.antt =====
-- What the reconciler acts on: the API server, its cache, the logs, the clock and the LLM backend,
-- as functions over a state of their own, with a trace of the calls that the program made.
pub mod Trace
pub mod Budget
pub mod Costs
use k8s_health_ai.Prelude.{
  ℕ, suc, ◌+◌, String, Bool, true, false, Option, Outcome, ok, err, List, [], ◌∷◌, if◌then◌else◌,
}
use k8s_health_ai.Prelude.Int.{ℤ}
use k8s_health_ai.Go.Errors.{Error}
use k8s_health_ai.Action.{Action}
use k8s_health_ai.Kube.{Pod, PodSpec, Event, Key}
use k8s_health_ai.Api.{ClusterDiagnosis}
use k8s_health_ai.Llm.{FailureContext, Diagnosis, Provider}

abbrev pub Answer : Type 0
Answer = Outcome Error (Unit {0})

-- The parts of PodReconciler and of the libraries that it calls.
pub record Env (S : Type 0) : Type 0 where
  -- r.Client.Get of a Pod, and of a ClusterDiagnosis from the cache
  pub get_pod : Key → Action S Pod
  pub get_cached : Key → Action S ClusterDiagnosis
  -- r.APIReader.Get; a nil APIReader is `none`
  pub api_reader : Option (Key → Action S ClusterDiagnosis)
  -- controllerutil.SetControllerReference
  pub set_controller_reference : Pod → ClusterDiagnosis → Outcome Error ClusterDiagnosis
  -- r.Client.Create, r.Client.Status().Update, r.Client.Update
  pub create : ClusterDiagnosis → Action S (Unit {0})
  pub update_status : ClusterDiagnosis → Action S (Unit {0})
  pub update : ClusterDiagnosis → Action S (Unit {0})
  -- the events of a pod, and its logs by container name, of the previous instance or of this one
  pub list_events : Key → Action S (List Event)
  pub get_logs : Key → String → Bool → Action S String
  -- r.LLM.Diagnose
  pub diagnose : Provider S
  -- time.Now and time.Sleep, in nanoseconds
  pub now : S → ℕ × S
  pub sleep : ℕ → S → S
  -- yaml.Marshal of a pod's spec
  pub marshal_spec : PodSpec → Outcome Error String
  -- sort.Slice on events
  pub sort_events : (Event → Event → Bool) → List Event → List Event
  -- time.Parse and Time.Format with time.RFC3339
  pub parse_time : String → Option ℕ
  pub format_time : ℕ → String
  -- the hexadecimal print of sha256.Sum256
  pub sha256_hex : String → String

-- A call with its answer, where later steps depend on it.
pub data Call : Type 0 where
  read_pod : Call
  read_diagnosis : Outcome Error ClusterDiagnosis → Call
  created : ClusterDiagnosis → Answer → Call
  status_written : ClusterDiagnosis → Answer → Call
  written : ClusterDiagnosis → Answer → Call
  listed_events : Call
  fetched_logs : Bool → Call
  asked_llm : FailureContext → Outcome Error Diagnosis → Call
  slept : ℕ → Call
  -- metrics.RecordDiagnosis: the labels of the counter that was incremented
  counted : String → String → Call
  -- metrics.ObserveReconcile: the label and the duration
  observed : String → ℤ → Call

-- `calls` has the latest call first.
pub record World (S : Type 0) : Type 0 where
  pub state : S
  pub calls : List Call

abbrev pub Run : Type 0 → Type 0 → Type 0
Run S A = Action (World S) A

module _ {S A : Type 0} where
  -- make a call, and note it with its answer
  abbrev pub perform : (Outcome Error A → Call) → Action S A → Run S A
  perform note m w = let (r, s) = m w.state in (r, record { state = s; calls = note r ∷ w.calls })

-- the writes of a diagnosis in a trace: its creation and its updates
abbrev pub is_write : Call → Bool
is_write (created cd answer) = true
is_write (status_written cd answer) = true
is_write (written cd answer) = true
is_write _ = false

unfoldable pub writes : List Call → ℕ
writes [] = 0
writes (c ∷ calls) = if is_write c then suc (writes calls) else writes calls

-- the nanoseconds slept
abbrev pub pause_of : Call → ℕ
pause_of (slept n) = n
pause_of _ = 0

unfoldable pub slept_total : List Call → ℕ
slept_total [] = 0
slept_total (c ∷ calls) = pause_of c + slept_total calls

-- the LLM calls in a trace
abbrev pub is_llm : Call → Bool
is_llm (asked_llm fc answer) = true
is_llm _ = false

unfoldable pub llm_calls : List Call → ℕ
llm_calls [] = 0
llm_calls (c ∷ calls) = if is_llm c then suc (llm_calls calls) else llm_calls calls
