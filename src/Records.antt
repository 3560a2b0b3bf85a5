-- ===== src/Records.antt =====
-- The records that the state keeps and the threads exchange: src/state/task_list.rs,
-- src/state/node_list.rs and the enum `TaskState` of src/state/state.rs.
use torc_scheduler.Machine.F64.{F64}
use torc_scheduler.Prelude.{String, Bool, true, false, List}
use torc_scheduler.Prelude.Int.{ℤ}

pub data TaskState : Type 0 where
  not_running restart requested accepted running : TaskState

-- The derived `PartialEq`.
unfoldable pub same_state : TaskState → TaskState → Bool
same_state TaskState.not_running TaskState.not_running = true
same_state TaskState.restart TaskState.restart = true
same_state TaskState.requested TaskState.requested = true
same_state TaskState.accepted TaskState.accepted = true
same_state TaskState.running TaskState.running = true
same_state _ _ = false

pub data Sla : Type 0 where
  no_sla singleton_each_node singleton_each_slave : Sla

pub record Volume : Type 0 where
  pub host_path : String
  pub container_path : String
  pub read_only_mode : Bool

pub record Task : Type 0 where
  pub name : String
  pub controller : String
  pub id : String
  pub image : String
  pub node_name : String
  pub node_type : String
  pub node_function : String
  pub dependent_service : String
  pub arguments : String
  pub parameters : String
  pub memory : F64
  pub cpu : F64
  pub volumes : List Volume
  pub privileged : Bool
  pub sla : Sla
  pub is_metered : Bool
  pub is_system_service : Bool
  pub is_job : Bool
  pub network_type : String
  pub ip : String
  pub slave_id : String
  pub state : TaskState
  pub last_update : ℤ

pub record Node : Type 0 where
  pub name : String
  pub ip : String
  pub external_ip : String
  pub management_ip : String
  pub node_type : String
  pub node_function : String
  pub active : Bool
  pub slave_id : String
  pub port_id : ℤ
  pub last_seen : ℤ
