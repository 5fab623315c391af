-- ===== src/Kube.antt =====
-- The fields of a Kubernetes Pod that the source reads (k8s.io/api/core/v1). `nil` is `none`.
use k8s_health_ai.Prelude.{ℕ, String, Option, List}
use k8s_health_ai.Prelude.Int.{ℤ}

pub record Waiting : Type 0 where
  pub reason : String
  pub message : String

pub record Terminated : Type 0 where
  pub reason : String
  pub exit_code : ℤ

pub record ContainerState : Type 0 where
  pub waiting : Option Waiting
  pub terminated : Option Terminated

pub record ContainerStatus : Type 0 where
  pub name : String
  pub restart_count : ℤ
  pub state : ContainerState
  pub last_termination_state : ContainerState

pub record PodCondition : Type 0 where
  pub type : String
  pub status : String
  pub reason : String

pub record PodStatus : Type 0 where
  pub phase : String
  pub conditions : List PodCondition
  pub init_container_statuses : List ContainerStatus
  pub container_statuses : List ContainerStatus

-- A quantity is the text that its `String` method gives.
abbrev pub ResourceList : Type 0
ResourceList = List (String × String)

pub record Container : Type 0 where
  pub name : String
  pub requests : ResourceList
  pub limits : ResourceList

-- `rest` stands for the fields that the program only hands to the YAML printer.
pub record PodSpec : Type 0 where
  pub containers : List Container
  pub init_containers : List Container
  pub rest : String

pub record Pod : Type 0 where
  pub namespace : String
  pub name : String
  pub spec : PodSpec
  pub status : PodStatus

-- core/v1 Event; a zero time is `none`
pub record Event : Type 0 where
  pub type : String
  pub reason : String
  pub message : String
  pub last_timestamp : Option ℕ
  pub event_time : Option ℕ

-- types.NamespacedName
pub record Key : Type 0 where
  pub namespace : String
  pub name : String
