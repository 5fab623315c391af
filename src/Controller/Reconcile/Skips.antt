-- ===== src/Controller/Reconcile/Skips.antt =====
-- internal/controller/pod_controller.go: the runs of reconcileInner that write nothing.
use k8s_health_ai.Prelude.{
  ℕ, ◌+◌, ◌<◌, ◌≡◌, ◌≢◌, String, true, false, some, Outcome, ok, err, ◌∷◌, eq_iff, arith,
  Option-cases, inl, inr, if◌then◌else◌,
}
use k8s_health_ai.Prelude.Int.{ℤ}
use k8s_health_ai.Go.Errors.{Error, is_not_found}
use k8s_health_ai.Kube.{Pod, Key}
use k8s_health_ai.Api.{ClusterDiagnosis, phase_ready}
use k8s_health_ai.Detect.{FailureType, classify, fingerprint, diagnosis_name}
use k8s_health_ai.World.{Env, World, read_pod, read_diagnosis}
use k8s_health_ai.Controller.Rate.{min_between_llm, last_llm_call, requeue_delay}
use k8s_health_ai.Controller.Rate.Window.{requeue_delay-none_iff}
use k8s_health_ai.Controller.Changes.{is_current}
use k8s_health_ai.Controller.Reconcile.{
  Result, finished, requeue_in, after_lookup, ensure_diagnosis, clock, rate_limit, refresh,
  diagnose_pod, handle_pod, reconcile_inner,
}

-- the key of the diagnosis of a pod with a failure type
abbrev pub key_of : {S : Type 0} → Env S → Pod → FailureType → Key
key_of env pod ft = record {
  namespace = pod.namespace;
  name = diagnosis_name env.sha256_hex pod.namespace pod.name ft;
}

-- the answers to the first read that end the run, and how
abbrev pub Idle : Outcome Error Pod → Type 0
Idle (ok pod) = (classify (some pod)).2 ≡ false
Idle (err e) = Unit

abbrev pub idle_result : Outcome Error Pod → Outcome Error Result
idle_result (ok pod) = ok finished
idle_result (err e) = if is_not_found e then ok finished else err e

module _ {S : Type 0} (env : Env S) (req : Key) (w : World S) where
  module _ (pod : Pod) (ft : FailureType) (container : String) (cd : ClusterDiagnosis) (s s' : S)
      (got : env.get_pod req w.state ≡ (ok pod, s))
      (flagged : classify (some pod) ≡ (ft, container, true))
      (cached : env.get_cached (key_of env pod ft) s ≡ (ok cd, s')) where
    -- Where the cached diagnosis is Ready with the fingerprint of the pod's container, the run ends
    -- with no error and no requeue after the two reads: it writes nothing and asks no LLM.
    pub reconcile_current :
        cd.status.phase ≡ phase_ready
        → cd.status.observed_fingerprint ≡ fingerprint pod container
        → reconcile_inner env req w ≡ (
          ok finished,
          record { state = s'; calls = read_diagnosis (ok cd) ∷ read_pod ∷ w.calls },
        )
    unfolding reconcile_inner handle_pod diagnose_pod ensure_diagnosis after_lookup refresh
        is_current
    reconcile_current ready same = ground (
      arith,
      eq_iff cd.status.phase phase_ready,
      eq_iff cd.status.observed_fingerprint (fingerprint pod container),
    )

    -- Where the cached diagnosis is not Ready with the fingerprint of the pod's container, but its
    -- annotation holds a time that is later than five minutes ago, the run ends with no error after
    -- the two reads: it writes nothing, asks no LLM, and requeues the pod after the delay that
    -- the rate limit computes.
    pub reconcile_limited :
        (ts now : ℕ) (s'' : S)
        → is_current cd (fingerprint pod container) ≡ false
        → last_llm_call cd ≢ ""
        → env.parse_time (last_llm_call cd) ≡ some ts
        → env.now s' ≡ (now, s'')
        → now < ts + min_between_llm
        → (d : ℤ) × (requeue_delay now (some ts) ≡ some d)
          × (reconcile_inner env req w ≡ (
            ok (requeue_in d),
            record { state = s''; calls = read_diagnosis (ok cd) ∷ read_pod ∷ w.calls },
          ))
    unfolding reconcile_inner handle_pod diagnose_pod ensure_diagnosis after_lookup refresh
        rate_limit clock
    reconcile_limited ts now s'' stale noted parsed clocked recent =
        elim (Option-cases (requeue_delay now (some ts))) [
          | inl e ↦ absurd (omega (arith, (requeue_delay-none_iff now ts).0 e))
          | inr (d, e) ↦ (d, e, ground (arith, eq_iff (last_llm_call cd) ""))
        ]

  -- A pod that is not flagged ends the run with no error after one read; so does a pod that is
  -- gone. Any other error of that read is returned.
  pub reconcile_unflagged :
      (r : Outcome Error Pod) (s : S)
      → env.get_pod req w.state ≡ (r, s)
      → Idle r
      → reconcile_inner env req w
        ≡ (idle_result r, record { state = s; calls = read_pod ∷ w.calls })
  unfolding reconcile_inner handle_pod
  reconcile_unflagged (ok pod) s h idle = ground arith
  reconcile_unflagged (err e) s h idle = ground arith
