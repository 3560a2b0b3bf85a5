-- ===== src/Server/Handlers.antt =====
-- The handlers of the serving thread, the private functions of `StateManager` in
-- src/state/state.rs. What they print is left out; `now` is the clock.
use torc_scheduler.Collaborator.{Effect}
use torc_scheduler.Collaborator.Consul.{register_running_task}
use torc_scheduler.NodeList
use torc_scheduler.NodeList.{NodeList}
use torc_scheduler.Prelude.{String, Bool, false, not, ◌&&◌, Option, none, some, List, [], ◌==◌}
use torc_scheduler.Prelude.Int.{ℤ}
use torc_scheduler.Records.{Task, TaskState, Node}
use torc_scheduler.Server.{State, StateResponseMsg, Served}
use torc_scheduler.TaskList
use torc_scheduler.TaskList.{TaskList}

-- An answer that changes nothing.
abbrev answered : State → StateResponseMsg → Served
answered s msg = record { state = s; answer = msg; effects = [] }

-- A change of one of the two lists, answered by `msg`.
abbrev with_tasks : State → TaskList → StateResponseMsg → Served
with_tasks s l msg = record { state = record s { task_list = l }; answer = msg; effects = [] }

abbrev with_nodes : State → NodeList → StateResponseMsg → Served
with_nodes s l msg = record { state = record s { node_list = l }; answer = msg; effects = [] }

unfoldable pub handle_ping : State → Served
handle_ping s = answered s StateResponseMsg.pong

unfoldable pub handle_get_task_state : State → String → Served
handle_get_task_state s task_name =
    answered s (StateResponseMsg.task_state (TaskList.get_task_state task_name s.task_list))

unfoldable pub handle_get_task_ip : State → String → Served
handle_get_task_ip s task_name =
    let ip : String = elim (TaskList.get_task task_name s.task_list) [
      | some task ↦ task.ip
      | none ↦ ""
    ] in
    answered s (StateResponseMsg.task_ip ip)

unfoldable pub handle_get_task_name_by_id : State → String → Served
handle_get_task_name_by_id s id_prefix =
    answered s (StateResponseMsg.task_name (TaskList.get_task_name_by_id id_prefix s.task_list))

-- A task that is set running is registered, if it is there.
abbrev pub registration : State → String → TaskState → TaskList → List Effect
registration s task_name TaskState.running l = elim (TaskList.get_task task_name l) [
  | some task ↦ register_running_task s.master_ip task
  | none ↦ []
]
registration s task_name _ l = []

unfoldable pub handle_update_task_state : State → String → TaskState → Served
handle_update_task_state s task_name new_state =
    let l = TaskList.set_task_state task_name new_state s.task_list in
    record {
      state = record s { task_list = l };
      answer = StateResponseMsg.updated_task_state;
      effects = registration s task_name new_state l;
    }

unfoldable pub handle_update_task_node_name : State → String → String → Served
handle_update_task_node_name s task_name node_name =
    with_tasks s (TaskList.set_task_node_name task_name node_name s.task_list)
      StateResponseMsg.updated_task_node_name

unfoldable pub handle_update_task_info : State → String → String → String → String → Served
handle_update_task_info s task_name id ip slave_id =
    with_tasks s (TaskList.set_task_info task_name id ip slave_id s.task_list)
      StateResponseMsg.updated_task_info

unfoldable pub handle_update_task_last_update : ℤ → State → String → Served
handle_update_task_last_update now s task_name =
    with_tasks s (TaskList.update_task_last_update now task_name s.task_list)
      StateResponseMsg.updated_task_last_update

unfoldable pub handle_start_task : State → Task → Served
handle_start_task s task =
    with_tasks s (TaskList.add_new_task task s.task_list) StateResponseMsg.started_task

unfoldable pub handle_restart_task : ℤ → State → String → Served
handle_restart_task now s task_name =
    let l = TaskList.update_task_last_update now task_name s.task_list in
    with_tasks s (TaskList.set_task_state task_name TaskState.restart l)
      StateResponseMsg.restarted_task

abbrev pub is_restartable : String → Task → Bool
is_restartable my_name task =
    task.is_system_service && task.controller == my_name && not task.is_job

unfoldable pub handle_get_is_restartable_task : State → String → Served
handle_get_is_restartable_task s task_name =
    let restartable : Bool = elim (TaskList.get_task task_name s.task_list) [
      | some task ↦ is_restartable s.my_name task
      | none ↦ false
    ] in
    answered s (StateResponseMsg.is_restartable_task restartable)

unfoldable pub handle_remove_task_by_name : State → String → Served
handle_remove_task_by_name s task_name =
    with_tasks s (TaskList.remove_task_by_name task_name s.task_list) StateResponseMsg.removed_task

unfoldable pub handle_get_requested_tasks : State → Served
handle_get_requested_tasks s = answered s (
    StateResponseMsg.requested_tasks
      (TaskList.get_tasks_with_state TaskState.requested s.task_list))

unfoldable pub handle_get_running_tasks : State → Served
handle_get_running_tasks s =
    answered s
      (StateResponseMsg.running_tasks (TaskList.get_tasks_with_state TaskState.running s.task_list))

unfoldable pub handle_get_restart_tasks : State → Served
handle_get_restart_tasks s =
    answered s
      (StateResponseMsg.restart_tasks (TaskList.get_tasks_with_state TaskState.restart s.task_list))

unfoldable pub handle_add_node : State → Node → Served
handle_add_node s node =
    with_nodes s (NodeList.add_new_node node s.node_list) StateResponseMsg.added_node

unfoldable pub handle_get_is_node_active : ℤ → State → String → Served
handle_get_is_node_active now s node_name =
    let (active, l) = NodeList.is_node_active now node_name s.node_list in
    with_nodes s l (StateResponseMsg.is_node_active active)

unfoldable pub handle_update_node : State → String → String → String → String → Served
handle_update_node s node_name node_type node_function slave_id =
    with_nodes s (NodeList.update_node node_name node_type node_function slave_id s.node_list)
      StateResponseMsg.updated_node

unfoldable pub handle_set_node_inactive : State → String → Served
handle_set_node_inactive s node_name =
    with_nodes s (NodeList.set_node_inactive node_name s.node_list)
      StateResponseMsg.node_set_inactive

-- `get_node(..).unwrap()`: for a node that is not in the list the thread panics.
unfoldable pub handle_get_node : State → String → Option Served
handle_get_node s node_name = elim (NodeList.get_node node_name s.node_list) [
  | some node ↦ some (answered s (StateResponseMsg.node node))
  | none ↦ none
]

unfoldable pub handle_get_nodes : State → Served
handle_get_nodes s = answered s (StateResponseMsg.nodes (NodeList.get_nodes s.node_list))
