-- ===== src/Server/Validity.antt =====
-- The invariant of the serving thread's state, and its preservation by src/state/state.rs.
use torc_scheduler.NodeList.View as NodeView
use torc_scheduler.Prelude.{String, Option, none, some, List, [], ◌∷◌, arith}
use torc_scheduler.Prelude.Int.{ℤ}
use torc_scheduler.Server.{State, StateRequestMsg, start_state}
use torc_scheduler.Server.Handlers
use torc_scheduler.Server.Serve.{dispatch, serve_all, next_state}
use torc_scheduler.TaskList.View as TaskView

-- Both lists hold each entry under its own name, once.
pub record IsValid (s : State) : Type 0 where
  pub tasks : TaskView.IsValid s.task_list
  pub nodes : NodeView.IsValid s.node_list

-- A thread that has panicked has no state to be wrong.
abbrev pub IsValidIfAlive : Option State → Type 0
IsValidIfAlive none = Unit
IsValidIfAlive (some s) = IsValid s

ruleset kept = (
  TaskView.add_new_task-IsValid, TaskView.remove_task_by_name-IsValid,
  TaskView.set_task_state-IsValid, TaskView.set_task_node_name-IsValid,
  TaskView.update_task_last_update-IsValid, TaskView.set_task_info-IsValid,
  NodeView.add_new_node-IsValid, NodeView.is_node_active-IsValid,
  NodeView.set_node_inactive-IsValid, NodeView.update_node-IsValid,
)

handle_get_node-IsValid :
    (s : State) (n : String)
    → IsValid s
    → IsValidIfAlive (next_state (Handlers.handle_get_node s n))
unfolding Handlers.handle_get_node
handle_get_node-IsValid s n h = ground arith

-- One round of the loop keeps the invariant, whatever the message.
pub dispatch-IsValid :
    (now : ℤ) (s : State) (msg : StateRequestMsg)
    → IsValid s
    → IsValidIfAlive (next_state (dispatch now s msg))
unfolding dispatch Handlers.handle_ping Handlers.handle_get_task_state Handlers.handle_get_task_ip
    Handlers.handle_get_task_name_by_id Handlers.handle_update_task_state
    Handlers.handle_update_task_node_name Handlers.handle_update_task_info
    Handlers.handle_update_task_last_update Handlers.handle_start_task Handlers.handle_restart_task
    Handlers.handle_get_is_restartable_task Handlers.handle_remove_task_by_name
    Handlers.handle_get_requested_tasks Handlers.handle_get_running_tasks
    Handlers.handle_get_restart_tasks Handlers.handle_add_node Handlers.handle_get_is_node_active
    Handlers.handle_update_node Handlers.handle_set_node_inactive Handlers.handle_get_nodes
dispatch-IsValid now s (StateRequestMsg.get_node n) h = handle_get_node-IsValid s n h
dispatch-IsValid now s (StateRequestMsg.update_task_state n st) h = record {
  tasks = TaskView.set_task_state-IsValid s.task_list h.tasks n st;
  nodes = h.nodes;
}
dispatch-IsValid now s _ h = record {
  tasks = search (kept, h.tasks);
  nodes = search (kept, h.nodes);
}

-- From a state whose two lists hold each entry under its own name, once, whatever messages arrive
-- in whatever order, a state that is still there has such lists.
pub serve_all-IsValid :
    (msgs : List (ℤ × StateRequestMsg)) (s : Option State)
    → IsValidIfAlive s
    → IsValidIfAlive (serve_all msgs s)
unfolding serve_all
serve_all-IsValid msgs none h = tt
serve_all-IsValid [] (some s) h = h
serve_all-IsValid ((now, msg) ∷ msgs) (some s) h =
    serve_all-IsValid msgs (next_state (dispatch now s msg)) (dispatch-IsValid now s msg h)

-- The state that the thread starts with is valid.
pub start_state-IsValid : (master_ip my_name : String) → IsValid (start_state master_ip my_name)
unfolding start_state
start_state-IsValid master_ip my_name = record { tasks = tt; nodes = tt }
