-- ===== src/Controller/Reconcile.antt =====
-- internal/controller/pod_controller.go: Reconcile, reconcileInner, fail and failurePredicate.
pub mod Skips
pub mod Decides
pub mod Results
pub mod Analysis
pub mod Quality
pub mod Repeats
pub mod Steps
pub mod Spending
pub mod Observed
pub mod Succeeds
pub mod Cooperation
pub mod Liveness
pub mod Cooldown
pub mod Steady
pub mod Settles
use k8s_health_ai.Prelude.{
  ℕ, String, Bool, true, false, ◌&&◌, ◌||◌, Option, none, some, Outcome, ok, err, List, [], ◌∷◌,
  ◌==◌, if◌then◌else◌,
}
use k8s_health_ai.Prelude.Int.{ℤ, pos, is_positive}
use k8s_health_ai.Go.Errors.{Error, message, is_not_found, is_already_exists}
use k8s_health_ai.Go.Strings.{to_lower}
use k8s_health_ai.Action.{pure, raise, lift, attempt, always, ◌>>=◌, ◌>>◌}
use k8s_health_ai.Kube.{Pod, Key}
use k8s_health_ai.Api.{
  ClusterDiagnosis, ClusterDiagnosisSpec, empty_status, phase_analyzing, phase_ready, phase_error,
  insert,
}
use k8s_health_ai.Detect.{FailureType, classify, fingerprint, diagnosis_name}
use k8s_health_ai.Llm.{FailureContext, Diagnosis}
use k8s_health_ai.Collect.{build_resource_usage}
use k8s_health_ai.Collect.Gather.{gather}
use k8s_health_ai.Remediation.{for_failure}
use k8s_health_ai.World.{
  Env, World, Run, perform, read_pod, read_diagnosis, created, asked_llm, counted, observed,
}
use k8s_health_ai.Controller.Rate.{last_llm_call_annotation, last_llm_call, requeue_delay, since}
use k8s_health_ai.Controller.Changes.{
  new_diagnosis, set_analyzing, set_ready, set_error, set_last_llm_call, is_current,
}
use k8s_health_ai.Controller.Patch.{
  Mutation, get_diagnosis, patch_diagnosis_status, patch_diagnosis_meta,
}

-- ctrl.Result
pub record Result : Type 0 where
  pub requeue : Bool
  pub requeue_after : ℤ

abbrev pub finished : Result
finished = record { requeue = false; requeue_after = pos 0 }

abbrev pub requeue_in : ℤ → Result
requeue_in d = record { requeue = false; requeue_after = d }

module _ {S : Type 0} (env : Env S) where
  -- metrics.RecordDiagnosis; both phases are lower case already
  unfoldable pub count_diagnosis : FailureType → String → Run S (Unit {0})
  count_diagnosis ft phase w =
      (ok tt, record { state = w.state; calls = counted ft phase ∷ w.calls })

  unfoldable pub clock : Run S ℕ
  clock w = let (t, s) = env.now w.state in (ok t, record { state = s; calls = w.calls })

  unfoldable pub fail : Key → String → FailureType → Error → Run S Result
  fail pod_nn cd_name ft reconcile_err = do
    attempt (
        patch_diagnosis_status env (record { namespace = pod_nn.namespace; name = cd_name })
          (set_error (message reconcile_err)))
    count_diagnosis ft "error"
    raise reconcile_err

  -- behind r.Client.Create: another writer may have been first
  unfoldable pub after_create : Key → Outcome Error (Unit {0}) → Run S ClusterDiagnosis
  after_create key (ok _) = get_diagnosis env key
  after_create key (err e) =
      if is_already_exists e then (get_diagnosis env key >> get_diagnosis env key) else raise e

  unfoldable pub create_diagnosis : Pod → FailureType → Key → Run S ClusterDiagnosis
  unfolding after_create
  create_diagnosis pod ft key = do
    cd ← lift (env.set_controller_reference pod (new_diagnosis pod ft key.name))
    answer ← attempt (perform (created cd) (env.create cd))
    after_create key answer

  unfoldable pub after_lookup :
      Pod → FailureType → Key → Outcome Error ClusterDiagnosis → Run S ClusterDiagnosis
  after_lookup pod ft key (ok cd) = pure cd
  after_lookup pod ft key (err e) = if is_not_found e then create_diagnosis pod ft key else raise e

  -- the diagnosis from the cache, or a new one
  unfoldable pub ensure_diagnosis : Pod → FailureType → Key → Run S ClusterDiagnosis
  ensure_diagnosis pod ft key = do
    got ← attempt (perform read_diagnosis (env.get_cached key))
    after_lookup pod ft key got

  -- behind the write of the diagnosis: it is counted, and the time of the call is written
  unfoldable pub announce : FailureType → Key → Run S Result
  announce ft key = do
    count_diagnosis ft "ready"
    t ← clock
    patch_diagnosis_meta env key (set_last_llm_call (env.format_time t))
    pure finished

  unfoldable pub publish : Pod → FailureType → String → Key → String → ℕ → Diagnosis → Run S Result
  publish pod ft container key fp now diag = do
    patch_diagnosis_status env key (set_ready pod ft container fp now diag)
    announce ft key

  unfoldable pub after_llm :
      Key → Pod → FailureType → String → Key → String → ℕ → Outcome Error Diagnosis → Run S Result
  after_llm req pod ft container key fp now (ok diag) = publish pod ft container key fp now diag
  after_llm req pod ft container key fp now (err e) = fail req key.name ft e

  unfoldable pub after_gather :
      Key
      → Pod
      → FailureType
      → String
      → Key
      → String
      → ℕ
      → Outcome Error FailureContext
      → Run S Result
  after_gather req pod ft container key fp now (ok fc) = do
    answer ← attempt (perform (asked_llm fc) (env.diagnose fc))
    after_llm req pod ft container key fp now answer
  after_gather req pod ft container key fp now (err e) = fail req key.name ft e

  -- from `now := metav1.Now()` on
  unfoldable pub analyze : Key → Pod → FailureType → String → Key → String → Run S Result
  analyze req pod ft container key fp = do
    now ← clock
    patch_diagnosis_status env key set_analyzing
    gathered ← attempt (gather env pod container ft)
    after_gather req pod ft container key fp now gathered

  -- `none` is a text that time.Parse refuses
  unfoldable pub check_rate : Option ℕ → Run S (Option ℤ)
  check_rate none = pure none
  check_rate (some ts) = do t ← clock; pure (requeue_delay t (some ts))

  -- the test of the annotation: the delay to requeue after, or `none`
  unfoldable pub rate_limit : ClusterDiagnosis → Run S (Option ℤ)
  unfolding check_rate
  rate_limit cd =
      if last_llm_call cd == "" then pure none else check_rate (env.parse_time (last_llm_call cd))

  unfoldable pub after_rate_limit :
      Key → Pod → FailureType → String → Key → String → Option ℤ → Run S Result
  after_rate_limit req pod ft container key fp (some d) = pure (requeue_in d)
  after_rate_limit req pod ft container key fp none = analyze req pod ft container key fp

  -- from `fp := detect.Fingerprint(…)` on
  unfoldable pub refresh : Key → Pod → FailureType → String → Key → ClusterDiagnosis → Run S Result
  unfolding after_rate_limit
  refresh req pod ft container key cd =
      let fp = fingerprint pod container in
      if is_current cd fp
      then pure finished
      else (do limited ← rate_limit cd; after_rate_limit req pod ft container key fp limited)

  -- behind Classify
  unfoldable pub diagnose_pod : Key → Pod → FailureType → String → Run S Result
  diagnose_pod req pod ft container = do
    let name = diagnosis_name env.sha256_hex pod.namespace pod.name ft
    let key : Key = record { namespace = pod.namespace; name = name }
    cd ← ensure_diagnosis pod ft key
    refresh req pod ft container key cd

  unfoldable pub handle_pod : Key → Pod → Run S Result
  handle_pod req pod =
      let (ft, container, found) = classify (some pod) in
      if found then diagnose_pod req pod ft container else pure finished

  unfoldable pub after_get_pod : Key → Outcome Error Pod → Run S Result
  after_get_pod req (ok pod) = handle_pod req pod
  after_get_pod req (err e) = if is_not_found e then pure finished else raise e

  unfoldable pub reconcile_inner : Key → Run S Result
  unfolding after_get_pod
  reconcile_inner req = do
    got ← attempt (perform (λ _. read_pod) (env.get_pod req))
    after_get_pod req got

-- the label under which Reconcile observes the duration
unfoldable pub reconcile_label : Outcome Error Result → String
reconcile_label (err e) = "error"
reconcile_label (ok r) = if is_positive r.requeue_after || r.requeue then "skipped" else "success"

-- metrics.ObserveReconcile
unfoldable pub note_reconcile : {S : Type 0} → String → ℤ → Run S (Unit {0})
unfolding to_lower
note_reconcile label d w =
    (ok tt, record { state = w.state; calls = observed (to_lower label) d ∷ w.calls })

-- Reconcile: reconcileInner between two readings of the clock
unfoldable pub reconcile : {S : Type 0} → Env S → Key → Run S Result
unfolding reconcile_inner reconcile_label note_reconcile since clock
reconcile env req = do
  start ← clock env
  answer ← attempt (reconcile_inner env req)
  stop ← clock env
  note_reconcile (reconcile_label answer) (since stop start)
  lift answer

-- failurePredicate on an object; what is no Pod is `none`
unfoldable pub failure_predicate : Option Pod → Bool
failure_predicate none = false
failure_predicate (some pod) = (classify (some pod)).2
