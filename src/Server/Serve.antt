-- ===== src/Server/Serve.antt =====
-- `start_serving` of src/state/state.rs: the loop that receives a message and calls its handler.
use torc_scheduler.Prelude.{Option, none, some, List, [], ◌∷◌}
use torc_scheduler.Prelude.Int.{ℤ}
use torc_scheduler.Server.{State, StateRequestMsg, Served}
use torc_scheduler.Server.Handlers

-- One round of the loop; `none` is a panic, which ends the thread.
unfoldable pub dispatch : ℤ → State → StateRequestMsg → Option Served
dispatch now s StateRequestMsg.ping = some (Handlers.handle_ping s)
dispatch now s (StateRequestMsg.get_task_state n) = some (Handlers.handle_get_task_state s n)
dispatch now s (StateRequestMsg.get_task_ip n) = some (Handlers.handle_get_task_ip s n)
dispatch now s (StateRequestMsg.get_task_name_by_id id) =
    some (Handlers.handle_get_task_name_by_id s id)
dispatch now s (StateRequestMsg.update_task_state n st) =
    some (Handlers.handle_update_task_state s n st)
dispatch now s (StateRequestMsg.update_task_node_name n node) =
    some (Handlers.handle_update_task_node_name s n node)
dispatch now s (StateRequestMsg.update_task_info n id ip slave) =
    some (Handlers.handle_update_task_info s n id ip slave)
dispatch now s (StateRequestMsg.update_task_last_update n) =
    some (Handlers.handle_update_task_last_update now s n)
dispatch now s (StateRequestMsg.start_task task) = some (Handlers.handle_start_task s task)
dispatch now s (StateRequestMsg.restart_task n) = some (Handlers.handle_restart_task now s n)
dispatch now s (StateRequestMsg.remove_task n) = some (Handlers.handle_remove_task_by_name s n)
dispatch now s (StateRequestMsg.get_is_restartable_task n) =
    some (Handlers.handle_get_is_restartable_task s n)
dispatch now s StateRequestMsg.get_requested_tasks = some (Handlers.handle_get_requested_tasks s)
dispatch now s StateRequestMsg.get_running_tasks = some (Handlers.handle_get_running_tasks s)
dispatch now s StateRequestMsg.get_restart_tasks = some (Handlers.handle_get_restart_tasks s)
dispatch now s (StateRequestMsg.add_node node) = some (Handlers.handle_add_node s node)
dispatch now s (StateRequestMsg.get_is_node_active n) =
    some (Handlers.handle_get_is_node_active now s n)
dispatch now s (StateRequestMsg.update_node n type function slave) =
    some (Handlers.handle_update_node s n type function slave)
dispatch now s (StateRequestMsg.set_node_inactive n) = some (Handlers.handle_set_node_inactive s n)
dispatch now s (StateRequestMsg.get_node n) = Handlers.handle_get_node s n
dispatch now s StateRequestMsg.get_nodes = some (Handlers.handle_get_nodes s)

abbrev pub next_state : Option Served → Option State
next_state none = none
next_state (some served) = some served.state

-- The messages in the order in which they arrive, whichever threads send them, each with the clock
-- at its arrival. `none` is the state of a thread that has panicked.
unfoldable pub serve_all : List (ℤ × StateRequestMsg) → Option State → Option State
serve_all msgs none = none
serve_all [] (some s) = some s
serve_all ((now, msg) ∷ msgs) (some s) = serve_all msgs (next_state (dispatch now s msg))
