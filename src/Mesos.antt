-- ===== src/Mesos.antt =====
-- The messages of the mesos crate that src/scheduler/scheduler_impl.rs reads and builds, with the
-- fields that it reads or sets. The crate itself is not part of the repository: what its `util`
-- functions make of their arguments is left open, and the model keeps the arguments.
use torc_scheduler.Machine.F64.{F64}
use torc_scheduler.Prelude.{String, Bool, Option, List}

-- The value of `get_name()`, and of `get_text().get_value()` or `get_scalar().get_value()`.
pub record Attribute : Type 0 where
  pub name : String
  pub text : String

pub record Resource : Type 0 where
  pub name : String
  pub scalar : F64

pub record Offer : Type 0 where
  pub id : String
  pub slave_id : String
  pub attributes : List Attribute
  pub resources : List Resource

pub data Network : Type 0 where
  host no_network : Network

pub record Parameter : Type 0 where
  pub key : String
  pub value : String

pub data Mode : Type 0 where
  ro rw : Mode

pub record MountedVolume : Type 0 where
  pub host_path : String
  pub container_path : String
  pub mode : Mode

-- A repeated field that is not set is empty; an optional one that is not set is `none`.
pub record Docker : Type 0 where
  pub image : String
  pub privileged : Bool
  pub network : Option Network
  pub parameters : List Parameter

pub record Container : Type 0 where
  pub docker : Docker
  pub volumes : List MountedVolume

pub record Command : Type 0 where
  pub shell : Bool
  pub arguments : List String

-- `util::task_id(name)`
pub data TaskId : Type 0 where
  task_id : String → TaskId

-- `util::scalar(name, role, value)`
pub data ScalarResource : Type 0 where
  scalar : String → String → F64 → ScalarResource

-- `util::task_info_for_container(name, task_id, slave_id, command, container, resources)`
pub record TaskInfo : Type 0 where
  pub name : String
  pub id : TaskId
  pub slave_id : String
  pub command : Command
  pub container : Container
  pub resources : List ScalarResource

-- The states of a task that `update` tells apart; `other` is any further state of the protocol.
pub data MesosTaskState : Type 0 where
  task_running task_finished task_killed task_failed task_lost other : MesosTaskState

-- `text` is what the bytes of the status decode to, `none` if they are not UTF-8.
pub record TaskStatus : Type 0 where
  pub task_id : String
  pub state : MesosTaskState
  pub text : Option String
  pub slave_id : String
