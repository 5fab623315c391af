-- ===== src/Controller/Reconcile/Liveness.antt =====
-- internal/controller/pod_controller.go: where the cluster and the LLM answer, a run of the
-- reconciler ends with no error.
use k8s_health_ai.Prelude.{ℕ, refl, inl, inr, ◌==◌, String, Option, none, some, ok}
use k8s_health_ai.Prelude.Int.{ℤ}
use k8s_health_ai.Action.{attempt, ◌>>=◌}
use k8s_health_ai.Kube.{Pod, Key}
use k8s_health_ai.Api.{ClusterDiagnosis}
use k8s_health_ai.Detect.{FailureType, classify, fingerprint, diagnosis_name}
use k8s_health_ai.Llm.{FailureContext, Diagnosis}
use k8s_health_ai.Collect.Gather.{gather}
use k8s_health_ai.World.{Env, World, read_diagnosis}
use k8s_health_ai.Controller.Changes.{new_diagnosis, set_analyzing, set_ready, is_current}
use k8s_health_ai.Controller.Rate.{last_llm_call, requeue_delay}
use k8s_health_ai.Controller.Patch.{get_diagnosis}
use k8s_health_ai.Controller.Reconcile.{
  finished, requeue_in, after_create, create_diagnosis, after_lookup, ensure_diagnosis, publish,
  after_llm, after_gather, analyze, check_rate, rate_limit, after_rate_limit, refresh, diagnose_pod,
  handle_pod, after_get_pod, reconcile_inner,
}
use k8s_health_ai.Controller.Reconcile.Succeeds.{
  IsOk, Succeeds, Succeeds-pure, Succeeds-perform, Succeeds-if, Succeeds-bind,
}
use k8s_health_ai.Controller.Reconcile.Cooperation.{
  Cooperates, clock-Succeeds, gather-Succeeds, patch_status-Succeeds, announce-Succeeds,
}

module _ {S : Type 0} (env : Env S) (Good Live : S → Type 0)
    (cooperates : Cooperates env Good Live) where
  module _ (req : Key) (pod : Pod) (ft : FailureType) (container : String) (key : Key)
      (fp : String) where
    publish-Succeeds :
        (now : ℕ) (diag : Diagnosis) → Succeeds Live (publish env pod ft container key fp now diag)
    unfolding publish
    publish-Succeeds now diag =
        Succeeds-bind Live _ _
          (patch_status-Succeeds env Good Live cooperates key
            (set_ready pod ft container fp now diag))
          λ _. announce-Succeeds env Good Live cooperates ft key

    ask-Succeeds :
        (now : ℕ) (fc : FailureContext)
        → Succeeds Live (after_gather env req pod ft container key fp now (ok fc))
    unfolding after_gather after_llm
    ask-Succeeds now fc = record {
      ends = λ w g.
          let (diag, e, g1) = cooperates.answers fc w.state g in
          rw e ((publish-Succeeds now diag).ends _ g1);
    }

    -- behind a context that was gathered
    gathered-Succeeds :
        (now : ℕ)
        → Succeeds Live (
            attempt (gather env pod container ft)
            >>= after_gather env req pod ft container key fp now)
    gathered-Succeeds now = record {
      ends = λ w g.
          let (fc, e, g1) = (gather-Succeeds env Good Live cooperates pod container ft).ends w g in
          rw e ((ask-Succeeds now fc).ends _ g1);
    }

    analyze-Succeeds : Succeeds Live (analyze env req pod ft container key fp)
    unfolding analyze
    analyze-Succeeds = Succeeds-bind Live _ _ (clock-Succeeds env Good Live cooperates) λ now.
        Succeeds-bind Live _ _ (patch_status-Succeeds env Good Live cooperates key set_analyzing)
          λ _. gathered-Succeeds now

    after_rate_limit-Succeeds :
        (d : Option ℤ) → Succeeds Live (after_rate_limit env req pod ft container key fp d)
    unfolding after_rate_limit
    after_rate_limit-Succeeds (some d) = Succeeds-pure Live (requeue_in d)
    after_rate_limit-Succeeds none = analyze-Succeeds

  check_rate-Succeeds : (t : Option ℕ) → Succeeds Live (check_rate env t)
  unfolding check_rate
  check_rate-Succeeds none = Succeeds-pure Live none
  check_rate-Succeeds (some ts) =
      Succeeds-bind Live _ _ (clock-Succeeds env Good Live cooperates)
        λ t. Succeeds-pure Live (requeue_delay t (some ts))

  rate_limit-Succeeds : (cd : ClusterDiagnosis) → Succeeds Live (rate_limit env cd)
  unfolding rate_limit
  rate_limit-Succeeds cd =
      Succeeds-if Live (last_llm_call cd == "") _ _ (Succeeds-pure Live none)
        (check_rate-Succeeds (env.parse_time (last_llm_call cd)))

  refresh-Succeeds :
      (req : Key) (pod : Pod) (ft : FailureType) (container : String) (key : Key)
      (cd : ClusterDiagnosis)
      → Succeeds Live (refresh env req pod ft container key cd)
  unfolding refresh
  refresh-Succeeds req pod ft container key cd =
      Succeeds-if Live (is_current cd (fingerprint pod container)) _ _ (Succeeds-pure Live finished)
        (Succeeds-bind Live _ _ (rate_limit-Succeeds cd)
          (after_rate_limit-Succeeds req pod ft container key (fingerprint pod container)))

  get_diagnosis-Succeeds : (key : Key) → Succeeds Live (get_diagnosis env key)
  unfolding get_diagnosis
  get_diagnosis-Succeeds key = Succeeds-perform Live read_diagnosis _ (cooperates.reads key)

  create_diagnosis-IsOk :
      (pod : Pod) (ft : FailureType) (key : Key) (w : World S)
      → Good w.state
      → IsOk Live
          ((create_diagnosis env pod ft key w).0, (create_diagnosis env pod ft key w).1.state)
  unfolding create_diagnosis after_create
  create_diagnosis-IsOk pod ft key w g =
      let (owned, o) = cooperates.owns pod (new_diagnosis pod ft key.name) in
      elim (cooperates.creates owned w.state g) [
        | inl (u, e, live) ↦ rw (o, e) ((get_diagnosis-Succeeds key).ends _ live)
        | inr (x, e, exists, live) ↦
            rw (o, e, exists)
              ((Succeeds-bind Live _ _ (get_diagnosis-Succeeds key)
                  λ _. get_diagnosis-Succeeds key).ends
                _ live)
      ]

  ensure_diagnosis-IsOk :
      (pod : Pod) (ft : FailureType) (key : Key) (w : World S)
      → Good w.state
      → IsOk Live
          ((ensure_diagnosis env pod ft key w).0, (ensure_diagnosis env pod ft key w).1.state)
  unfolding ensure_diagnosis after_lookup
  ensure_diagnosis-IsOk pod ft key w g = elim (cooperates.finds key w.state g) [
    | inl (cd, e, live) ↦ rw e (cd, refl, live)
    | inr (x, e, absent, g1) ↦ rw (e, absent) (create_diagnosis-IsOk pod ft key _ g1)
  ]

  diagnose_pod-Succeeds :
      (req : Key) (pod : Pod) (ft : FailureType) (container : String)
      → Succeeds Good (diagnose_pod env req pod ft container)
  unfolding diagnose_pod
  diagnose_pod-Succeeds req pod ft container = record {
    ends = λ w g.
        let key : Key = record {
          namespace = pod.namespace;
          name = diagnosis_name env.sha256_hex pod.namespace pod.name ft;
        } in
        let (cd, e, live) = ensure_diagnosis-IsOk pod ft key w g in
        let (r, e', live') = (refresh-Succeeds req pod ft container key cd).ends _ live in
        (r, rw e e', rw e (cooperates.stays_good _ live'));
  }

  handle_pod-Succeeds : (req : Key) (pod : Pod) → Succeeds Good (handle_pod env req pod)
  unfolding handle_pod
  handle_pod-Succeeds req pod =
      let (ft, container, found) = classify (some pod) in
      Succeeds-if Good found _ _ (diagnose_pod-Succeeds req pod ft container)
        (Succeeds-pure Good finished)

  -- Where the cluster and the LLM answer, a run of the reconciler ends with no error, in a state from
  -- which they answer again.
  pub reconcile_inner-IsOk :
      (req : Key) (w : World S)
      → Good w.state
      → IsOk Good ((reconcile_inner env req w).0, (reconcile_inner env req w).1.state)
  unfolding reconcile_inner after_get_pod
  reconcile_inner-IsOk req w g =
      let (pod, e, g1) = cooperates.gets_pod req w.state g in
      rw e ((handle_pod-Succeeds req pod).ends _ g1)
