-- ===== src/Controller/Reconcile/Steps.antt =====
-- internal/controller/pod_controller.go: what the steps of reconcileInner cost at most.
use k8s_health_ai.Prelude.{ℕ, ◌*◌, ◌^◌, refl, String, Outcome, ok, err, arith}
use k8s_health_ai.Go.Errors.{is_not_found, Error, message}
use k8s_health_ai.Kube.{Pod, Key}
use k8s_health_ai.Api.{ClusterDiagnosis}
use k8s_health_ai.Llm.{Diagnosis}
use k8s_health_ai.Detect.{FailureType}
use k8s_health_ai.World.{Env, perform, read_diagnosis, created, counted}
use k8s_health_ai.World.Budget.{IsWithin-call, IsWithin-refl}
use k8s_health_ai.World.Trace.{Extends-refl, Extends-note}
use k8s_health_ai.Controller.Patch.Attempts.{patch_diagnosis-PatchEnd}
use k8s_health_ai.World.Costs.{
  Costs, Costs-lift, Costs-weaken, Costs-if, Costs-pure, Costs-raise, Costs-attempt, Costs-perform,
  Costs-bind, Costs-free, Costs-then, free_rules,
}
use k8s_health_ai.Controller.Patch.{
  Mutation, Writer, patch_diagnosis, get_diagnosis, patch_diagnosis_status, patch_diagnosis_meta,
  status_writer, metadata_writer,
}
use k8s_health_ai.Controller.Patch.Bounds.{patch_diagnosis-IsWithin}
use k8s_health_ai.Controller.Changes.{set_error, set_last_llm_call}
use k8s_health_ai.Controller.Reconcile.{
  count_diagnosis, clock, fail, after_create, create_diagnosis, after_lookup, ensure_diagnosis,
  announce, publish, finished,
}

-- the nanoseconds that one patch, two of them and three of them may sleep
abbrev pub pause_limit : ℕ
pause_limit = 900 * 10 ^ 6

abbrev pub twice_limit : ℕ
twice_limit = 1800 * 10 ^ 6

abbrev pub run_limit : ℕ
run_limit = 2700 * 10 ^ 6

module _ {S : Type 0} (env : Env S) where
  pub Costs-get_diagnosis : (key : Key) → Costs 0 0 0 (get_diagnosis env key)
  unfolding get_diagnosis
  Costs-get_diagnosis key =
      Costs-perform 0 0 0 _ _ λ r calls. IsWithin-call (read_diagnosis r) calls

  pub Costs-count_diagnosis :
      (ft : FailureType) (phase : String) → Costs 0 0 0 (count_diagnosis env ft phase)
  unfolding count_diagnosis
  Costs-count_diagnosis ft phase = record {
    within = λ w. IsWithin-call (counted ft phase) w.calls;
    grows = λ w. Extends-note (counted ft phase) refl;
  }

  pub Costs-clock : Costs 0 0 0 (clock env)
  unfolding clock
  Costs-clock = record { within = λ w. IsWithin-refl w.calls; grows = λ w. Extends-refl w.calls }

  pub Costs-patch :
      (writer : Writer) (key : Key) (mutate : Mutation)
      → Costs 8 pause_limit 0 (patch_diagnosis env writer key mutate)
  Costs-patch writer key mutate = record {
    within = patch_diagnosis-IsWithin env writer key mutate;
    grows = λ w. (patch_diagnosis-PatchEnd env writer key mutate w).1;
  }

  pub Costs-patch_status :
      (key : Key) (mutate : Mutation)
      → Costs 8 pause_limit 0 (patch_diagnosis_status env key mutate)
  unfolding patch_diagnosis_status
  Costs-patch_status key mutate = Costs-patch status_writer key mutate

  pub Costs-patch_meta :
      (key : Key) (mutate : Mutation) → Costs 8 pause_limit 0 (patch_diagnosis_meta env key mutate)
  unfolding patch_diagnosis_meta
  Costs-patch_meta key mutate = Costs-patch metadata_writer key mutate

  pub Costs-fail :
      (req : Key) (name : String) (ft : FailureType) (e : Error)
      → Costs 8 pause_limit 0 (fail env req name ft e)
  unfolding fail
  Costs-fail req name ft e =
      let key : Key = record { namespace = req.namespace; name = name } in
      Costs-then _ _ (Costs-attempt (Costs-patch_status key (set_error (message e))))
        λ _. Costs-free _ _ (Costs-count_diagnosis ft "error") (λ _. Costs-raise e)

  pub Costs-after_create :
      (key : Key) (r : Outcome Error (Unit {0})) → Costs 0 0 0 (after_create env key r)
  unfolding after_create
  Costs-after_create key (ok u) = Costs-get_diagnosis key
  Costs-after_create key (err e) = search (free_rules, Costs-get_diagnosis)

  pub Costs-create : (cd : ClusterDiagnosis) → Costs 1 0 0 (perform (created cd) (env.create cd))
  Costs-create cd = Costs-perform 1 0 0 _ _ λ r calls. IsWithin-call (created cd r) calls

  pub Costs-create_diagnosis :
      (pod : Pod) (ft : FailureType) (key : Key) → Costs 1 0 0 (create_diagnosis env pod ft key)
  unfolding create_diagnosis
  Costs-create_diagnosis pod ft key =
      Costs-free _ _ (Costs-lift _)
        λ cd. Costs-then _ _ (Costs-attempt (Costs-create cd)) (Costs-after_create key)

  Costs-after_lookup :
      (pod : Pod) (ft : FailureType) (key : Key) (r : Outcome Error ClusterDiagnosis)
      → Costs 1 0 0 (after_lookup env pod ft key r)
  unfolding after_lookup
  Costs-after_lookup pod ft key (ok cd) =
      Costs-weaken 0 0 0 (Costs-pure cd) (omega arith) (omega arith) (omega arith)
  Costs-after_lookup pod ft key (err e) =
      Costs-if (is_not_found e) _ _ (Costs-create_diagnosis pod ft key)
        (Costs-weaken 0 0 0 (Costs-raise e) (omega arith) (omega arith) (omega arith))

  pub Costs-ensure_diagnosis :
      (pod : Pod) (ft : FailureType) (key : Key) → Costs 1 0 0 (ensure_diagnosis env pod ft key)
  unfolding ensure_diagnosis
  Costs-ensure_diagnosis pod ft key =
      Costs-free _ _
        (Costs-attempt (Costs-perform 0 0 0 _ _ λ r calls. IsWithin-call (read_diagnosis r) calls))
        (Costs-after_lookup pod ft key)

  pub Costs-announce : (ft : FailureType) (key : Key) → Costs 8 pause_limit 0 (announce env ft key)
  unfolding announce
  Costs-announce ft key = Costs-free _ _ (Costs-count_diagnosis ft "ready") λ _.
      Costs-free _ _ Costs-clock λ t.
        Costs-then _ _ (Costs-patch_meta key (set_last_llm_call (env.format_time t)))
          λ _. Costs-pure finished

  pub Costs-publish :
      (pod : Pod) (ft : FailureType) (container : String) (key : Key) (fp : String) (now : ℕ)
      (diag : Diagnosis)
      → Costs 16 twice_limit 0 (publish env pod ft container key fp now diag)
  unfolding publish
  Costs-publish pod ft container key fp now diag =
      Costs-bind 8 8 pause_limit pause_limit 0 0 (Costs-patch_status _ _)
        (λ _. Costs-announce ft key) (omega arith) (omega arith) (omega arith)
