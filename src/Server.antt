-- ===== src/Server.antt =====
-- The state that the serving thread of src/state/state.rs owns, and the messages by which the other
-- threads reach it. A message's `sender` is where the answer goes; a request is answered before the
-- next one is received, so the answer is the result of the step.
pub mod Contents
pub mod Alike
pub mod Settings
pub mod Handlers
pub mod Serve
pub mod Validity
pub mod Panics
pub mod Refinement
pub mod Answers
use torc_scheduler.Collaborator.{Effect}
use torc_scheduler.NodeList.{NodeList, new_node_list}
use torc_scheduler.Prelude.{String, Bool, true, List}
use torc_scheduler.Records.{Task, TaskState, Node}
use torc_scheduler.TaskList.{TaskList, new_task_list}

pub record State : Type 0 where
  pub initialized : Bool
  pub master_ip : String
  pub my_name : String
  pub task_list : TaskList
  pub node_list : NodeList

-- The state before the first message.
unfoldable pub start_state : String → String → State
start_state master_ip my_name = record {
  initialized = true;
  master_ip = master_ip;
  my_name = my_name;
  task_list = new_task_list;
  node_list = new_node_list;
}

pub data StateRequestMsg : Type 0 where
  ping : StateRequestMsg
  get_task_state get_task_ip get_task_name_by_id : String → StateRequestMsg
  update_task_state : String → TaskState → StateRequestMsg
  update_task_node_name : String → String → StateRequestMsg
  -- name, id, ip, slave id
  update_task_info : String → String → String → String → StateRequestMsg
  update_task_last_update : String → StateRequestMsg
  start_task : Task → StateRequestMsg
  restart_task remove_task get_is_restartable_task : String → StateRequestMsg
  get_requested_tasks get_running_tasks get_restart_tasks : StateRequestMsg
  add_node : Node → StateRequestMsg
  get_is_node_active : String → StateRequestMsg
  -- name, type, function, slave id
  update_node : String → String → String → String → StateRequestMsg
  set_node_inactive get_node : String → StateRequestMsg
  get_nodes : StateRequestMsg

pub data StateResponseMsg : Type 0 where
  pong : StateResponseMsg
  task_state : TaskState → StateResponseMsg
  task_ip task_name : String → StateResponseMsg
  updated_task_state updated_task_info updated_task_node_name : StateResponseMsg
  updated_task_last_update started_task restarted_task removed_task : StateResponseMsg
  is_restartable_task : Bool → StateResponseMsg
  requested_tasks running_tasks restart_tasks : List Task → StateResponseMsg
  added_node : StateResponseMsg
  is_node_active : Bool → StateResponseMsg
  updated_node node_set_inactive : StateResponseMsg
  nodes : List Node → StateResponseMsg
  node : Node → StateResponseMsg

-- What a handler leaves behind: the state, the answer, and the calls of other systems.
pub record Served : Type 0 where
  pub state : State
  pub answer : StateResponseMsg
  pub effects : List Effect
