-- ===== src/Tests/Lives.antt =====
-- The life of a diagnosis at the server that keeps versions, and in the trace of a run.
use mathlib.Core.List.{Memᴰ}
use k8s_health_ai.Prelude.{
  ◌^◌, ℕ, zero, suc, ◌<◌, ◌≡◌, refl, sym, ◌∙◌, ap, ◌⊎◌, inl, inr, String, Bool, true, false,
  Bool-cases, ◌&&◌, none, some, Outcome, ok, err, List, [], ◌∷◌, length, ◌==◌, eq_iff,
  if◌then◌else◌, arith,
}
use k8s_health_ai.Go.Errors.{Error, api_error, not_found, already_exists, conflict}
use k8s_health_ai.Go.Strconv.{format_nat}
use k8s_health_ai.Kube.{Key}
use k8s_health_ai.Api.{ClusterDiagnosis}
use k8s_health_ai.Llm.Mock.{mock_provider}
use k8s_health_ai.Llm.Reliable.{IsReliable-mock}
use k8s_health_ai.World.{World}
use k8s_health_ai.Controller.Patch.{Writer, status_writer, metadata_writer}
use k8s_health_ai.Controller.Reconcile.{reconcile_inner}
use k8s_health_ai.Controller.Lifecycle.{Reach, born, later, begin}
use k8s_health_ai.Controller.Lifecycle.Sound.{Sound, Reach-Sound}
use k8s_health_ai.Controller.Lifecycle.Ordered.{AllSteps, reconcile_inner-AllSteps}
use k8s_health_ai.Controller.Lifecycle.Stored.{after_runs, after_runs-Sound}
use k8s_health_ai.Tests.Data.{crashing_pod}
use k8s_health_ai.Tests.Memory.{memory, start_with}
use k8s_health_ai.Tests.Runs.{request, fresh, diagnosis_key}
use k8s_health_ai.Tests.Detection.{classify_crashing}
use k8s_health_ai.Detect.{crash_loop_back_off, classify}
use k8s_health_ai.Controller.Changes.{set_analyzing}
use k8s_health_ai.Tests.Versions.{
  Numbered, Versions, push, versioned, Known, versioned-Server, SameContent-refl, empty,
  nothing-Known,
}

abbrev requests : List Key
requests = request ∷ []

abbrev last_of : List ClusterDiagnosis → ClusterDiagnosis
last_of [] = fresh
last_of (cd ∷ cds) = cd

abbrev end : World Versions
end = after_runs versioned Known versioned-Server requests empty

-- the run leaves a version behind, the fourth, which the update of the annotation stored
end-Known :
    Known end.state (last_of end.state.0) × ((last_of end.state.0).metadata.resource_version ≡ "3")
unfolding reconcile_inner k8s_health_ai.Controller.Reconcile.handle_pod
    k8s_health_ai.Controller.Reconcile.diagnose_pod
    k8s_health_ai.Controller.Reconcile.ensure_diagnosis
    k8s_health_ai.Controller.Reconcile.after_lookup
    k8s_health_ai.Controller.Reconcile.create_diagnosis k8s_health_ai.Controller.Reconcile.refresh
    k8s_health_ai.Controller.Reconcile.rate_limit
    k8s_health_ai.Controller.Reconcile.after_rate_limit k8s_health_ai.Controller.Reconcile.analyze
    k8s_health_ai.Controller.Reconcile.clock k8s_health_ai.Controller.Reconcile.after_gather
    k8s_health_ai.Controller.Reconcile.after_llm k8s_health_ai.Controller.Reconcile.publish
    k8s_health_ai.Controller.Reconcile.announce k8s_health_ai.Controller.Reconcile.count_diagnosis
    k8s_health_ai.Detect.classify k8s_health_ai.Detect.oom_body k8s_health_ai.Detect.is_oom
    k8s_health_ai.Detect.classify_waiting k8s_health_ai.Detect.waiting_body
    k8s_health_ai.Detect.waiting_failure k8s_health_ai.Detect.diagnosis_name
    k8s_health_ai.Prelude.first_some Numbered push k8s_health_ai.Go.Errors.is_not_found
    k8s_health_ai.Controller.Patch.get_diagnosis k8s_health_ai.Controller.Patch.read_with
    k8s_health_ai.Controller.Patch.patch_diagnosis_status
    k8s_health_ai.Controller.Patch.patch_diagnosis_meta
    k8s_health_ai.Controller.Patch.patch_diagnosis k8s_health_ai.Controller.Patch.patch_loop
    k8s_health_ai.Controller.Patch.attempt_write k8s_health_ai.Controller.Patch.after_write
    k8s_health_ai.Controller.Patch.write k8s_health_ai.Controller.Changes.new_diagnosis
    k8s_health_ai.Controller.Changes.is_current k8s_health_ai.Controller.Changes.set_analyzing
    k8s_health_ai.Controller.Changes.set_ready k8s_health_ai.Controller.Changes.set_last_llm_call
    k8s_health_ai.Controller.Rate.last_llm_call k8s_health_ai.Collect.Gather.gather
    k8s_health_ai.Collect.Gather.list_pod_events k8s_health_ai.Collect.Gather.fetch_logs
    k8s_health_ai.Llm.Mock.mock_provider format_nat k8s_health_ai.Collect.want_previous
    k8s_health_ai.Collect.Gather.previous_logs k8s_health_ai.Collect.is_useful
    k8s_health_ai.Collect.Gather.try_logs k8s_health_ai.Go.Strings.trim_space
    k8s_health_ai.Go.Strings.is_space k8s_health_ai.Go.Strings.keep_char
end-Known = (Memᴰ.head refl, refl)

after_runs-Sound_example : Reach (last_of end.state.0) × Sound (last_of end.state.0)
after_runs-Sound_example =
    after_runs-Sound versioned Known versioned-Server (IsReliable-mock "") requests empty
      nothing-Known (last_of end.state.0) end-Known.0

reconcile_inner-AllSteps_example :
    AllSteps memory (reconcile_inner memory request (start_with none 3 (10 ^ 9))).1.calls
unfolding AllSteps
reconcile_inner-AllSteps_example =
    reconcile_inner-AllSteps memory (IsReliable-mock "") request (start_with none 3 (10 ^ 9)) tt

Reach-Sound_example : Sound (set_analyzing fresh)
unfolding classify k8s_health_ai.Prelude.first_some k8s_health_ai.Detect.oom_body
Reach-Sound_example = Reach-Sound (
    later
      (born crashing_pod crash_loop_back_off "app" diagnosis_key.name classify_crashing
        (SameContent-refl fresh))
      (begin refl))
