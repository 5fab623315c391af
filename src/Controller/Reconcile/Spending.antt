-- ===== src/Controller/Reconcile/Spending.antt =====
-- internal/controller/pod_controller.go: what one run of reconcileInner spends, at most.
use k8s_health_ai.Prelude.{ℕ, ◌*◌, ◌^◌, String, Option, none, some, Outcome, ok, err, arith, ◌==◌}
use k8s_health_ai.Prelude.Int.{ℤ}
use k8s_health_ai.Go.Errors.{Error, is_not_found}
use k8s_health_ai.Kube.{Pod, Key}
use k8s_health_ai.Api.{ClusterDiagnosis}
use k8s_health_ai.Llm.{Diagnosis, FailureContext}
use k8s_health_ai.Detect.{FailureType, classify, fingerprint}
use k8s_health_ai.Collect.Costs.{Costs-gather}
use k8s_health_ai.World.{Env, World, Run, read_pod, asked_llm}
use k8s_health_ai.World.Budget.{IsWithin, IsWithin-call}
use k8s_health_ai.World.Costs.{
  Costs, Costs-pure, Costs-raise, Costs-weaken, Costs-attempt, Costs-perform, Costs-if, Costs-bind,
  Costs-free, free_rules,
}
use k8s_health_ai.Controller.Reconcile.Skips.{key_of}
use k8s_health_ai.Action.{pure}
use k8s_health_ai.Controller.Rate.{last_llm_call}
use k8s_health_ai.Controller.Changes.{is_current}
use k8s_health_ai.Controller.Reconcile.{
  Result, after_llm, after_gather, analyze, check_rate, rate_limit, after_rate_limit, refresh,
  diagnose_pod, handle_pod, after_get_pod, reconcile_inner, finished, requeue_in,
}
use k8s_health_ai.Controller.Reconcile.Steps.{
  run_limit, twice_limit, pause_limit, Costs-fail, Costs-publish, Costs-clock, Costs-patch_status,
  Costs-ensure_diagnosis,
}

module _ {S : Type 0} (env : Env S) where
  module _ (req : Key) (pod : Pod) (ft : FailureType) (container : String) (key : Key)
      (fp : String) where
    Costs-after_llm :
        (now : ℕ) (r : Outcome Error Diagnosis)
        → Costs 16 twice_limit 0 (after_llm env req pod ft container key fp now r)
    unfolding after_llm
    Costs-after_llm now (ok diag) = Costs-publish env pod ft container key fp now diag
    Costs-after_llm now (err e) =
        Costs-weaken 8 pause_limit 0 (Costs-fail env req key.name ft e) (omega arith) (omega arith)
          (omega arith)

    Costs-after_gather :
        (now : ℕ) (r : Outcome Error FailureContext)
        → Costs 16 twice_limit 1 (after_gather env req pod ft container key fp now r)
    unfolding after_gather
    Costs-after_gather now (ok fc) =
        Costs-bind 0 16 0 twice_limit 1 0
          (Costs-attempt (Costs-perform 0 0 1 _ _ λ r calls. IsWithin-call (asked_llm fc r) calls))
          (Costs-after_llm now) (omega arith) (omega arith) (omega arith)
    Costs-after_gather now (err e) =
        Costs-weaken 8 pause_limit 0 (Costs-fail env req key.name ft e) (omega arith) (omega arith)
          (omega arith)

    Costs-analyze : Costs 24 run_limit 1 (analyze env req pod ft container key fp)
    unfolding analyze
    Costs-analyze = Costs-free _ _ (Costs-clock env) λ now.
        Costs-bind 8 16 pause_limit twice_limit 0 1 (Costs-patch_status env _ _)
          (λ _.
            Costs-free _ _ (Costs-attempt (Costs-gather env pod container ft))
              (Costs-after_gather now))
          (omega arith) (omega arith) (omega arith)

    Costs-rest :
        (m : Option ℤ) → Costs 24 run_limit 1 (after_rate_limit env req pod ft container key fp m)
    unfolding after_rate_limit
    Costs-rest none = Costs-analyze
    Costs-rest (some d) =
        Costs-weaken 0 0 0 (Costs-pure (requeue_in d)) (omega arith) (omega arith) (omega arith)

  Costs-check_rate : (parsed : Option ℕ) → Costs 0 0 0 (check_rate env parsed)
  unfolding check_rate
  Costs-check_rate none = Costs-pure none
  Costs-check_rate (some ts) = search (free_rules, Costs-clock)

  Costs-rate_limit : (cd : ClusterDiagnosis) → Costs 0 0 0 (rate_limit env cd)
  unfolding rate_limit
  Costs-rate_limit cd =
      Costs-if (last_llm_call cd == "") _ _ (Costs-pure none)
        (Costs-check_rate (env.parse_time (last_llm_call cd)))

  Costs-idle : (r : Result) → Costs {S = S} 24 run_limit 1 (pure r)
  Costs-idle r = Costs-weaken 0 0 0 (Costs-pure r) (omega arith) (omega arith) (omega arith)

  Costs-quiet : {m : Run S Result} → Costs 0 0 0 m → Costs 25 run_limit 1 m
  Costs-quiet c = Costs-weaken 0 0 0 c (omega arith) (omega arith) (omega arith)

  Costs-refresh :
      (req : Key) (pod : Pod) (ft : FailureType) (container : String) (key : Key)
      (cd : ClusterDiagnosis)
      → Costs 24 run_limit 1 (refresh env req pod ft container key cd)
  unfolding refresh
  Costs-refresh req pod ft container key cd =
      let fp = fingerprint pod container in
      Costs-if (is_current cd fp) _ _ (Costs-idle finished)
        (Costs-free _ _ (Costs-rate_limit cd) (Costs-rest req pod ft container key fp))

  Costs-handle_pod : (req : Key) (pod : Pod) → Costs 25 run_limit 1 (handle_pod env req pod)
  unfolding handle_pod diagnose_pod
  Costs-handle_pod req pod =
      let (ft, container, found) = classify (some pod) in
      Costs-if found _ _
        (Costs-bind 1 24 0 run_limit 0 1 (Costs-ensure_diagnosis env pod ft (key_of env pod ft))
          (Costs-refresh req pod ft container (key_of env pod ft)) (omega arith) (omega arith)
          (omega arith))
        (Costs-quiet (Costs-pure finished))

  Costs-after_get_pod :
      (req : Key) (r : Outcome Error Pod) → Costs 25 run_limit 1 (after_get_pod env req r)
  unfolding after_get_pod
  Costs-after_get_pod req (ok pod) = Costs-handle_pod req pod
  Costs-after_get_pod req (err e) =
      Costs-if (is_not_found e) _ _ (Costs-quiet (Costs-pure finished))
        (Costs-quiet (Costs-raise e))

  -- One run of the reconciler asks the LLM at most once, creates or updates a diagnosis at most
  -- 25 times, and sleeps at most 2.7 seconds between its attempts (in nanoseconds), whatever the API server, the
  -- logs and the LLM answer.
  pub reconcile_inner-IsWithin :
      (req : Key) (w : World S)
      → IsWithin 25 (2700 * 10 ^ 6) 1 w.calls (reconcile_inner env req w).1.calls
  unfolding reconcile_inner
  reconcile_inner-IsWithin req =
      (Costs-free _ _
        (Costs-attempt (
          Costs-perform 0 0 0 (λ _. read_pod) (env.get_pod req)
            λ r calls. IsWithin-call read_pod calls))
        (Costs-after_get_pod req)).within
