-- ===== src/Tests/Start.antt =====
-- The theorems on the start of the manager, on deep copies and on patches, at concrete values.
use k8s_health_ai.Prelude.{ℕ, ◌*◌, ◌^◌, ◌≡◌, refl, inr, some, ok, err, [], arith, false}
use k8s_health_ai.Go.Errors.{text_error, api_error, conflict}
use k8s_health_ai.World.Budget.{IsWithin}
use k8s_health_ai.Controller.Patch.{status_writer, patch_diagnosis}
use k8s_health_ai.Controller.Patch.Liveness.{patch_diagnosis-ok}
use k8s_health_ai.Controller.Changes.{set_analyzing}
use k8s_health_ai.Controller.Reconcile.{reconcile}
use k8s_health_ai.Controller.Reconcile.Observed.{Observed, reconcile-Observed}
use k8s_health_ai.Manager.{Options, Machine, Boot, launch}
use k8s_health_ai.Manager.Launched.{Launched, launch-Launched}
use k8s_health_ai.Tests.Backends.{services, quote}
use k8s_health_ai.Tests.Memory.{memory, start_with}
use k8s_health_ai.Tests.Runs.{request, diagnosis_key, fresh, contended}

-- the readiness check is refused
abbrev machine : Machine ℕ
machine = record {
  services = services "mock";
  get_config = λ s. (ok tt, s);
  new_clientset = λ s. (ok tt, s);
  new_manager = λ options s. (ok tt, s);
  complete = λ c s. (ok tt, s);
  add_healthz_check = λ name check s. (ok tt, s);
  add_readyz_check = λ name check s. (err (text_error "already started"), s);
  start = λ s. (ok tt, s);
  server_version = λ s. (ok tt, s);
  library_flags = [];
  quote = quote;
}

abbrev options : Options
options = record {
  metrics_addr = ":8080";
  probe_addr = ":8081";
  leader_elect = false;
  leader_election_id = "k8s-health-ai-leader";
}

abbrev idle : Boot ℕ
idle = record { state = 0; stages = []; errors = []; infos = []; printed = [] }

launch-Launched_example :
    Launched machine options idle (launch machine options idle).0 (launch machine options idle).1
launch-Launched_example = launch-Launched machine options idle

-- three writes are refused before one is accepted
patch_diagnosis-ok_example :
    (patch_diagnosis memory status_writer diagnosis_key set_analyzing
      (start_with (some fresh) 3 0)).0
    ≡ ok tt
unfolding k8s_health_ai.Controller.Patch.read_with k8s_health_ai.Go.Errors.is_transient
patch_diagnosis-ok_example =
    patch_diagnosis-ok memory status_writer diagnosis_key set_analyzing 3
      (start_with (some fresh) 3 0) (omega arith)
      (
        _,
        refl,
        inr (
          _,
          refl,
          refl,
          (_, refl, inr (_, refl, refl, (_, refl, inr (_, refl, refl, (_, refl, refl))))),
        ),
      )

reconcile-Observed_example :
    Observed memory request contended
      (reconcile memory request contended).0
      (reconcile memory request contended).1.calls
    × IsWithin 25 (2700 * 10 ^ 6) 1 contended.calls (reconcile memory request contended).1.calls
reconcile-Observed_example = reconcile-Observed memory request contended
