-- ===== src/Server/Refinement.antt =====
-- What the serving thread of src/state/state.rs keeps, seen from outside: for each name at most one
-- task and at most one node. A message changes what stands under a name by the functions below,
-- which know neither the lists nor any other name.
use mathlib.Core.Option
use torc_scheduler.NodeList
use torc_scheduler.NodeList.{seen_if_active, as_inactive, as_active}
use torc_scheduler.NodeList.View as NodeView
use torc_scheduler.Prelude.{
  String, ◌≡◌, refl, Option, none, some, List, [], ◌∷◌, arith, ◌==◌, if◌then◌else◌, ◌∙◌, ap,
  Option-cases, inl, inr,
}
use torc_scheduler.Prelude.Int.{ℤ}
use torc_scheduler.Records.{Task, TaskState, Node}
use torc_scheduler.Server.{State, StateRequestMsg, Served}
use torc_scheduler.Server.Handlers
use torc_scheduler.Server.Serve.{dispatch, serve_all, next_state}
use torc_scheduler.TaskList
use torc_scheduler.TaskList.{with_state, with_node_name, with_last_update, with_info}
use torc_scheduler.TaskList.View as TaskView

abbrev restarted : ℤ → Task → Task
restarted now t = with_state TaskState.restart (with_last_update now t)

-- What a message makes of the task under the name `n`.
abbrev pub task_after : ℤ → StateRequestMsg → String → Option Task → Option Task
task_after now (StateRequestMsg.update_task_state m st) n o =
    if m == n then Option.map (with_state st) o else o
task_after now (StateRequestMsg.update_task_node_name m node) n o =
    if m == n then Option.map (with_node_name node) o else o
task_after now (StateRequestMsg.update_task_info m id ip slave) n o =
    if m == n then Option.map (with_info id ip slave) o else o
task_after now (StateRequestMsg.update_task_last_update m) n o =
    if m == n then Option.map (with_last_update now) o else o
task_after now (StateRequestMsg.start_task task) n o = if task.name == n then some task else o
task_after now (StateRequestMsg.restart_task m) n o =
    if m == n then Option.map (restarted now) o else o
task_after now (StateRequestMsg.remove_task m) n o = if m == n then none else o
task_after now _ n o = o

-- What a message makes of the node under the name `n`.
abbrev pub node_after : ℤ → StateRequestMsg → String → Option Node → Option Node
node_after now (StateRequestMsg.add_node node) n o = if node.name == n then some node else o
node_after now (StateRequestMsg.get_is_node_active m) n o =
    if m == n then Option.map (seen_if_active now) o else o
node_after now (StateRequestMsg.update_node m type function slave) n o =
    if m == n then Option.map (as_active type function slave) o else o
node_after now (StateRequestMsg.set_node_inactive m) n o =
    if m == n then Option.map as_inactive o else o
node_after now _ n o = o

-- The abstract step at every name, of a round that went through.
abbrev pub Refines : ℤ → State → StateRequestMsg → Option Served → Type 0
Refines now s msg none = Unit
Refines now s msg (some r) =
    ((n : String)
      → TaskList.get_task n r.state.task_list
        ≡ task_after now msg n (TaskList.get_task n s.task_list))
    × ((n : String)
        → NodeList.get_node n r.state.node_list
          ≡ node_after now msg n (NodeList.get_node n s.node_list))

-- The restart handler makes two updates of the list.
restart_view :
    (now : ℤ) (l : TaskList.TaskList) (m n : String)
    → TaskList.get_task n
        (TaskList.set_task_state m TaskState.restart (TaskList.update_task_last_update now m l))
      ≡ (if m == n
          then Option.map (restarted now) (TaskList.get_task n l)
          else TaskList.get_task n l)
restart_view now l m n = ground (
  arith,
  TaskView.get_task-set_task_state (TaskList.update_task_last_update now m l) n m TaskState.restart,
  TaskView.get_task-update_task_last_update l n now m,
)

handle_get_node-Refines :
    (now : ℤ) (s : State) (m : String)
    → Refines now s (StateRequestMsg.get_node m) (Handlers.handle_get_node s m)
unfolding Handlers.handle_get_node
handle_get_node-Refines now s m = elim (Option-cases (NodeList.get_node m s.node_list)) [
  | inl e ↦ rw (e, Refines) tt
  | inr (v, e) ↦ rw (e, Refines) (λ n. refl, λ n. refl)
]

ruleset laws = (
  TaskView.get_task-add_new_task, TaskView.get_task-remove_task_by_name,
  TaskView.get_task-set_task_node_name, TaskView.get_task-update_task_last_update,
  TaskView.get_task-set_task_info, TaskView.get_task-set_task_state, restart_view,
  NodeView.get_node-add_new_node, NodeView.get_node-is_node_active,
  NodeView.get_node-set_node_inactive, NodeView.get_node-update_node,
)

-- Every message: a round of the loop that does not panic is the abstract step, at every name.
pub dispatch-Refines :
    (now : ℤ) (s : State) (msg : StateRequestMsg) → Refines now s msg (dispatch now s msg)
unfolding dispatch Handlers.handle_ping Handlers.handle_get_task_state Handlers.handle_get_task_ip
    Handlers.handle_get_task_name_by_id Handlers.handle_update_task_state
    Handlers.handle_update_task_node_name Handlers.handle_update_task_info
    Handlers.handle_update_task_last_update Handlers.handle_start_task Handlers.handle_restart_task
    Handlers.handle_get_is_restartable_task Handlers.handle_remove_task_by_name
    Handlers.handle_get_requested_tasks Handlers.handle_get_running_tasks
    Handlers.handle_get_restart_tasks Handlers.handle_add_node Handlers.handle_get_is_node_active
    Handlers.handle_update_node Handlers.handle_set_node_inactive Handlers.handle_get_nodes
dispatch-Refines now s (StateRequestMsg.get_node m) = handle_get_node-Refines now s m
dispatch-Refines now s _ = (λ n. search laws, λ n. search laws)

-- A whole history of messages, at one name.
unfoldable pub task_history : List (ℤ × StateRequestMsg) → String → Option Task → Option Task
task_history [] n o = o
task_history ((now, msg) ∷ msgs) n o = task_history msgs n (task_after now msg n o)

unfoldable pub node_history : List (ℤ × StateRequestMsg) → String → Option Node → Option Node
node_history [] n o = o
node_history ((now, msg) ∷ msgs) n o = node_history msgs n (node_after now msg n o)

-- A state that is still there shows these tasks and nodes.
abbrev pub Shows : (String → Option Task) → (String → Option Node) → Option State → Type 0
Shows tasks nodes none = Unit
Shows tasks nodes (some s) =
    ((n : String) → TaskList.get_task n s.task_list ≡ tasks n)
    × ((n : String) → NodeList.get_node n s.node_list ≡ nodes n)

module _ (now : ℤ) (msg : StateRequestMsg) (tasks : String → Option Task)
    (nodes : String → Option Node) where
  Shows-next_state :
      (s : State) (d : Option Served)
      → Refines now s msg d
      → Shows tasks nodes (some s)
      → Shows
          (λ n. task_after now msg n (tasks n))
          (λ n. node_after now msg n (nodes n))
          (next_state d)
  Shows-next_state s none r h = tt
  Shows-next_state s (some served) r h = (
    λ n. r.0 n ∙ ap (task_after now msg n) (h.0 n),
    λ n. r.1 n ∙ ap (node_after now msg n) (h.1 n),
  )

-- Whatever messages arrive in whatever order, the lists of a serving thread that has not panicked
-- show under each name the task and the node that the history of that name makes of what stood
-- there before: the per-name abstract steps know neither the lists nor other names.
pub serve_all-Shows :
    (msgs : List (ℤ × StateRequestMsg)) (s : Option State) (tasks : String → Option Task)
    (nodes : String → Option Node)
    → Shows tasks nodes s
    → Shows
        (λ n. task_history msgs n (tasks n))
        (λ n. node_history msgs n (nodes n))
        (serve_all msgs s)
unfolding serve_all task_history node_history
serve_all-Shows [] none tasks nodes h = tt
serve_all-Shows (e ∷ msgs) none tasks nodes h = tt
serve_all-Shows [] (some s) tasks nodes h = h
serve_all-Shows ((now, msg) ∷ msgs) (some s) tasks nodes h =
    serve_all-Shows msgs (next_state (dispatch now s msg)) (λ n. task_after now msg n (tasks n))
      (λ n. node_after now msg n (nodes n))
      (Shows-next_state now msg tasks nodes s (dispatch now s msg) (dispatch-Refines now s msg) h)
