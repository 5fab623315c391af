-- ===== src/Tests/Data.antt =====
-- Pods, containers and decoders for the tests.
use k8s_health_ai.Prelude.{String, none, some, Outcome, ok, err, List, [], ◌∷◌, ◌==◌, if◌then◌else◌}
use k8s_health_ai.Prelude.Int.{pos}
use k8s_health_ai.Go.Errors.{Error, text_error}
use k8s_health_ai.Kube.{ContainerState, ContainerStatus, Pod, Event}
use k8s_health_ai.Llm.{Diagnosis}

abbrev pub no_state : ContainerState
no_state = record { waiting = none; terminated = none }

abbrev pub waiting_for : String → ContainerState
waiting_for reason = record {
  waiting = some (record { reason = reason; message = "back-off" });
  terminated = none;
}

abbrev pub killed_for_memory : ContainerState
killed_for_memory = record {
  waiting = none;
  terminated = some (record { reason = "OOMKilled"; exit_code = pos 137 });
}

abbrev pub status_of : String → ContainerState → ContainerState → ContainerStatus
status_of name state last = record {
  name = name;
  restart_count = pos 3;
  state = state;
  last_termination_state = last;
}

abbrev pub pod_with : String → List ContainerStatus → List ContainerStatus → Pod
pod_with phase inits containers = record {
  namespace = "shop";
  name = "web";
  spec = record {
    containers =
        (record { name = "app"; requests = ("cpu", "100m") ∷ []; limits = ("memory", "64Mi") ∷ [] })
        ∷ [];
    init_containers = (record { name = "migrate"; requests = []; limits = [] }) ∷ [];
    rest = "restartPolicy: Always";
  };
  status = record {
    phase = phase;
    conditions = [];
    init_container_statuses = inits;
    container_statuses = containers;
  };
}

-- back-off of the container `app`, killed for its memory, and a failed init container
abbrev pub crashing : ContainerStatus
crashing = status_of "app" (waiting_for "CrashLoopBackOff") no_state

abbrev pub crashing_pod : Pod
crashing_pod =
    pod_with "Running" [] (status_of "app" (waiting_for "CrashLoopBackOff") no_state ∷ [])

abbrev pub oom_pod : Pod
oom_pod =
    pod_with "Running" [] (status_of "app" (waiting_for "CrashLoopBackOff") killed_for_memory ∷ [])

abbrev pub healthy_pod : Pod
healthy_pod = pod_with "Running" [] (status_of "app" no_state no_state ∷ [])

abbrev pub old_event : Event
old_event = record {
  type = "Normal";
  reason = "Pulled";
  message = "image pulled";
  last_timestamp = some 10;
  event_time = none;
}

abbrev pub new_event : Event
new_event = record {
  type = "Warning";
  reason = "BackOff";
  message = "restarting";
  last_timestamp = none;
  event_time = some 20;
}

abbrev pub diagnosis_of : String → Diagnosis
diagnosis_of severity = record {
  root_cause = "memory limit";
  severity = severity;
  recommended_fix = "raise it";
  model = "";
}

abbrev pub object_text : String
object_text = "{\"severity\": \"HIGH\"}"

-- a decoder that knows one object
abbrev pub unmarshal : String → Outcome Error Diagnosis
unmarshal s =
    if s == object_text then ok (diagnosis_of " HIGH ") else err (text_error "invalid character")
