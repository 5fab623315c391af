-- ===== src/Tests/Runs.antt =====
-- The theorems on the reconciler at runs against the server in memory.
use k8s_health_ai.Prelude.{◌*◌, ◌^◌, ◌≡◌, refl, none, some, ok, [], ◌∷◌, arith, ◌≢◌}
use k8s_health_ai.Kube.{Key}
use k8s_health_ai.Api.{ClusterDiagnosis, phase_ready, empty_status}
use k8s_health_ai.Detect.{crash_loop_back_off, fingerprint}
use k8s_health_ai.World.{World}
use k8s_health_ai.World.Budget.{IsWithin}
use k8s_health_ai.World.Trace.{Extends}
use k8s_health_ai.Controller.Rate.{last_llm_call_annotation}
use k8s_health_ai.Controller.Patch.{status_writer, patch_diagnosis}
use k8s_health_ai.Controller.Patch.Attempts.{PatchEnd, patch_diagnosis-PatchEnd}
use k8s_health_ai.Controller.Changes.{new_diagnosis, set_analyzing}
use k8s_health_ai.Controller.Reconcile.{finished, requeue_in, analyze, reconcile_inner}
use k8s_health_ai.Controller.Reconcile.Skips.{key_of}
use k8s_health_ai.Controller.Reconcile.Decides.{Decision, reconcile_inner-Decision}
use k8s_health_ai.Controller.Reconcile.Spending.{reconcile_inner-IsWithin}
use k8s_health_ai.Controller.Reconcile.Analysis.{AnalyzeEnd, analyze-End}
use k8s_health_ai.Kube.{ContainerStatus}
use k8s_health_ai.Prelude.{first_some, false}
use k8s_health_ai.Prelude.Int.{pos}
use k8s_health_ai.Controller.Changes.{is_current}
use k8s_health_ai.Controller.Reconcile.Repeats.{settled, restart-stale}
use k8s_health_ai.Tests.Data.{crashing, pod_with, diagnosis_of, crashing_pod, healthy_pod}
use k8s_health_ai.Controller.Reconcile.Quality.{StoredComplete, analyze-StoredComplete}
use k8s_health_ai.Llm.Reliable.{IsReliable-mock}
use k8s_health_ai.Tests.Detection.{classify_crashing}
use k8s_health_ai.Tests.Memory.{Memory, memory, start_with}

abbrev pub request : Key
request = record { namespace = "shop"; name = "web" }

abbrev pub diagnosis_key : Key
diagnosis_key = key_of memory crashing_pod crash_loop_back_off

abbrev pub fresh : ClusterDiagnosis
fresh = new_diagnosis crashing_pod crash_loop_back_off diagnosis_key.name

-- a diagnosis that fits the pod
abbrev ready : ClusterDiagnosis
ready = record fresh {
  status = record empty_status {
    phase = phase_ready;
    observed_fingerprint = fingerprint crashing_pod "app";
  };
}

-- one of another fingerprint, made a minute after the origin
abbrev noted : ClusterDiagnosis
noted = record fresh {
  metadata = record fresh.metadata {
    annotations = some ((last_llm_call_annotation, "60000000000") ∷ []);
  };
}

-- no diagnosis yet, and three writes that are refused
abbrev pub contended : World Memory
contended = start_with none 3 (10 ^ 9)

analyze-End_example :
    AnalyzeEnd memory request crashing_pod crash_loop_back_off "app" diagnosis_key "app;"
      contended.calls
      (analyze memory request crashing_pod crash_loop_back_off "app" diagnosis_key "app;"
        contended).0
      (analyze memory request crashing_pod crash_loop_back_off "app" diagnosis_key "app;"
        contended).1.calls
analyze-End_example =
    analyze-End memory request crashing_pod crash_loop_back_off "app" diagnosis_key "app;" contended

reconcile_inner-IsWithin_example :
    IsWithin 25 (2700 * 10 ^ 6) 1 contended.calls (reconcile_inner memory request contended).1.calls
reconcile_inner-IsWithin_example = reconcile_inner-IsWithin memory request contended

patch_diagnosis-PatchEnd_example :
    PatchEnd status_writer set_analyzing
      (patch_diagnosis memory status_writer diagnosis_key set_analyzing
        (start_with (some fresh) 9 0)).0
      (patch_diagnosis memory status_writer diagnosis_key set_analyzing
        (start_with (some fresh) 9 0)).1.calls
    × Extends
        (start_with (some fresh) 9 0).calls
        (patch_diagnosis memory status_writer diagnosis_key set_analyzing
          (start_with (some fresh) 9 0)).1.calls
patch_diagnosis-PatchEnd_example =
    patch_diagnosis-PatchEnd memory status_writer diagnosis_key set_analyzing
      (start_with (some fresh) 9 0)

-- a minute after the call that the annotation tells of
abbrev soon : World Memory
soon = start_with (some noted) 0 (2 * 60000000000)

reconcile_inner-Decision_example :
    Decision memory request soon crashing_pod crash_loop_back_off "app" noted soon.state
      (2 * 60000000000)
      soon.state
      (reconcile_inner memory request soon)
reconcile_inner-Decision_example =
    reconcile_inner-Decision memory request soon crashing_pod crash_loop_back_off "app" noted
      soon.state soon.state refl classify_crashing refl (2 * 60000000000) soon.state refl

-- a world whose pod is healthy
abbrev quiet : World Memory
quiet = record {
  state = record { pod = ok healthy_pod; stored = none; conflicts = 0; time = 0 };
  calls = [];
}

-- a diagnosis that was just created, and no refused write
abbrev calm : World Memory
calm = start_with (some fresh) 0 (10 ^ 9)

calm_ends :
    (analyze memory request crashing_pod crash_loop_back_off "app" diagnosis_key "app;" calm).0
    ≡ ok finished
unfolding analyze k8s_health_ai.Controller.Reconcile.clock
    k8s_health_ai.Controller.Patch.patch_diagnosis_status patch_diagnosis
    k8s_health_ai.Controller.Patch.patch_loop k8s_health_ai.Controller.Patch.get_diagnosis
    k8s_health_ai.Controller.Patch.read_with k8s_health_ai.Controller.Patch.attempt_write
    k8s_health_ai.Controller.Patch.after_write k8s_health_ai.Controller.Patch.write
    k8s_health_ai.Controller.Reconcile.after_gather k8s_health_ai.Collect.Gather.gather
    k8s_health_ai.Collect.Gather.list_pod_events k8s_health_ai.Controller.Reconcile.after_llm
    k8s_health_ai.Llm.Mock.mock_provider k8s_health_ai.Controller.Reconcile.publish
    k8s_health_ai.Collect.Gather.fetch_logs k8s_health_ai.Collect.want_previous
    k8s_health_ai.Collect.Gather.previous_logs k8s_health_ai.Collect.Gather.try_logs
    k8s_health_ai.Collect.is_useful k8s_health_ai.Controller.Patch.patch_diagnosis_meta
    k8s_health_ai.Controller.Reconcile.announce k8s_health_ai.Controller.Reconcile.count_diagnosis
    k8s_health_ai.Go.Strings.is_space k8s_health_ai.Go.Strings.keep_char
    k8s_health_ai.Go.Strings.trim_space
calm_ends = refl

analyze-StoredComplete_example :
    StoredComplete memory request crashing_pod crash_loop_back_off "app" diagnosis_key "app;"
      calm.calls
      (analyze memory request crashing_pod crash_loop_back_off "app" diagnosis_key "app;"
        calm).1.calls
analyze-StoredComplete_example =
    analyze-StoredComplete memory request crashing_pod crash_loop_back_off "app" diagnosis_key
      "app;" (IsReliable-mock "") calm {r = finished} calm_ends

abbrev stored_diagnosis : ClusterDiagnosis
stored_diagnosis =
    settled crashing_pod crash_loop_back_off "app" 7 (diagnosis_of "high") "60000000000" fresh

-- the same pod after one more restart
abbrev restarted : ContainerStatus
restarted = record crashing { restart_count = pos 4 }

restarted_more : crashing.restart_count ≢ restarted.restart_count
restarted_more h = ground (arith, h)

restart-stale_example :
    is_current stored_diagnosis (fingerprint (pod_with "Running" [] (restarted ∷ [])) "app") ≡ false
unfolding first_some
restart-stale_example =
    restart-stale crashing_pod (pod_with "Running" [] (restarted ∷ [])) crash_loop_back_off "app"
      crashing restarted 7 (diagnosis_of "high") "60000000000" fresh refl refl restarted_more
