-- ===== src/Checker/Workload/Pods.antt =====
-- What the checkers read of a pod of the Kubernetes API. A quantity that is missing is 0.
use kube_assist_operator.Prelude.{ℕ, Bool, Option, List, String}

pub record ContainerStateWaiting : Type 0 where
  pub reason : String
  pub message : String

pub record ContainerStateTerminated : Type 0 where
  pub reason : String
  pub exit_code : ℕ

pub record ContainerStatus : Type 0 where
  pub name : String
  pub ready : Bool
  pub restart_count : ℕ
  pub waiting : Option ContainerStateWaiting
  pub terminated : Option ContainerStateTerminated

pub record PodCondition : Type 0 where
  pub type : String
  pub status : String
  pub reason : String
  pub message : String

pub record Container : Type 0 where
  pub name : String
  pub memory_limit : ℕ
  pub cpu_limit : ℕ
  pub memory_request : ℕ
  pub cpu_request : ℕ
  pub liveness_probe : Bool
  pub readiness_probe : Bool

pub record Pod : Type 0 where
  pub name : String
  pub namespace : String
  pub labels : List (String × String)
  pub phase : String
  pub container_statuses : List ContainerStatus
  pub conditions : List PodCondition
  pub containers : List Container
