-- ===== src/Controller/Lifecycle/Ordered.antt =====
-- internal/controller/pod_controller.go: the writes in the trace of a run.
use k8s_health_ai.Prelude.{◌≡◌, ap, String, true, some, ok, List, [], ◌∷◌}
use k8s_health_ai.Kube.{Pod, Key}
use k8s_health_ai.Api.{ClusterDiagnosis}
use k8s_health_ai.Detect.{FailureType, classify}
use k8s_health_ai.Llm.Reliable.{IsReliable}
use k8s_health_ai.World.{Env, Call, World, read_diagnosis, created, status_written, written}
use k8s_health_ai.Controller.Changes.{new_diagnosis}
use k8s_health_ai.Controller.Patch.{Writer, status_writer, metadata_writer, get_diagnosis, write}
use k8s_health_ai.Controller.Reconcile.{reconcile_inner}
use k8s_health_ai.Controller.Lifecycle.{Step}
use k8s_health_ai.Controller.Lifecycle.Watch.{Watch}
use k8s_health_ai.Controller.Lifecycle.Maintained.{reconcile_inner-Maintains}

-- The object is a step from the one that the call just before has read.
abbrev pub FollowsRead : Writer → ClusterDiagnosis → List Call → Type 0
FollowsRead writer b calls =
    (a : ClusterDiagnosis) × (rest : List Call) × (calls ≡ read_diagnosis (ok a) ∷ rest)
    × Step writer a b

module _ {S : Type 0} (env : Env S) where
  -- the new diagnosis of a pod that is flagged, owned by it
  abbrev pub IsNew : ClusterDiagnosis → Type 0
  IsNew cd =
      (pod : Pod) × (ft : FailureType) × (container : String) × (name : String) × (classify
          (some pod)
        ≡ (ft, container, true))
      × (env.set_controller_reference pod (new_diagnosis pod ft name) ≡ ok cd)

  -- Every write of the trace follows the read of the object that it is a step from, and every object
  -- that is created is a new one.
  unfoldable pub AllSteps : List Call → Type 0
  AllSteps [] = Unit
  AllSteps (created cd answer ∷ calls) = IsNew cd × AllSteps calls
  AllSteps (status_written b answer ∷ calls) = FollowsRead status_writer b calls × AllSteps calls
  AllSteps (written b answer ∷ calls) = FollowsRead metadata_writer b calls × AllSteps calls
  AllSteps (_ ∷ calls) = AllSteps calls

  -- the object is the one that the last call has read
  abbrev JustRead : ClusterDiagnosis → World S → Type 0
  JustRead cd w = (rest : List Call) × (w.calls ≡ read_diagnosis (ok cd) ∷ rest)

  write-AllSteps :
      (writer : Writer) (a b : ClusterDiagnosis) (w : World S)
      → Step writer a b
      → AllSteps w.calls
      → JustRead a w
      → AllSteps (write env writer b w).1.calls
  unfolding write AllSteps
  write-AllSteps status_writer a b w st h (rest, e) = ((a, rest, e, st), h)
  write-AllSteps metadata_writer a b w st h (rest, e) = ((a, rest, e, st), h)

  steps-Watch : Watch env (λ w. AllSteps w.calls) JustRead
  unfolding get_diagnosis AllSteps k8s_health_ai.Collect.Gather.list_pod_events
      k8s_health_ai.Collect.Gather.try_logs k8s_health_ai.Controller.Reconcile.count_diagnosis
      k8s_health_ai.Controller.Reconcile.clock k8s_health_ai.Controller.Patch.pause
  steps-Watch = record {
    pods = λ req. record { ends = λ w h. h };
    cached = λ key. record { ends = λ w h. h };
    reads = λ key. record { ends = λ w h. h };
    sees = λ key w h e. (w.calls, ap (λ r. read_diagnosis r ∷ w.calls) e);
    writes = write-AllSteps;
    creates = λ pod ft container name cd flagged owned. record {
      ends = λ w h. ((pod, ft, container, name, flagged, owned), h);
    };
    events = λ pod. record { ends = λ w h. h };
    logs = λ pod container previous. record { ends = λ w h. h };
    asks = λ fc. record { ends = λ w h. h };
    counts = λ ft phase. record { ends = λ w h. h };
    ticks = record { ends = λ w h. h };
    pauses = λ n. record { ends = λ w h. h };
  }

  -- Where the LLM's diagnoses are complete, every write of a run is one of the four steps, from the
  -- object that the call just before the write has read: to Analyzing, to Ready with the analysis of
  -- a flagged pod, to Error, each by an update of the status, or the time of the LLM call, by an
  -- update of the object. What is created is the new diagnosis of a flagged pod, owned by it.
  pub reconcile_inner-AllSteps :
      IsReliable env.diagnose
      → (req : Key) (w : World S) → AllSteps w.calls
      → AllSteps (reconcile_inner env req w).1.calls
  reconcile_inner-AllSteps reliable req w =
      (reconcile_inner-Maintains env (λ w. AllSteps w.calls) JustRead steps-Watch reliable req).ends
        w
