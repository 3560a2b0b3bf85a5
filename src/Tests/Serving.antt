-- ===== src/Tests/Serving.antt =====
-- The serving thread and its two lists at work.
use mathlib.Core.Quot
use torc_scheduler.HashMap.{get, insert, modify}
use torc_scheduler.NodeList
use torc_scheduler.NodeList.{as_inactive}
use torc_scheduler.Prelude.{
  String, ◌≡◌, refl, ◌↔◌, Option, none, some, List, [], ◌∷◌, ◌++◌, Member, subst,
}
use torc_scheduler.Prelude.Int.{ℤ, pos}
use torc_scheduler.Records.{Task, TaskState, Node}
use torc_scheduler.Server.{State, StateRequestMsg, start_state}
use torc_scheduler.Server.Answers.{Fits, serve_all-Fits}
use torc_scheduler.Server.Contents.{Contents, serve, messages_commute}
use torc_scheduler.Server.Handlers
use torc_scheduler.Server.Panics.{IsKnown, serve_all_total, AsksTooMuch, serve_all_panics_iff}
use torc_scheduler.Server.Refinement.{Shows, task_history, node_history, serve_all-Shows}
use torc_scheduler.Server.Serve.{dispatch, serve_all}
use torc_scheduler.Server.Validity.{IsValid}
use torc_scheduler.TaskList
use torc_scheduler.TaskList.Queries.{member-get_tasks_with_state}
use torc_scheduler.Tests.Data.{web, monitor, leaf, cluster}

cluster-IsValid : IsValid cluster
unfolding get
cluster-IsValid = record { tasks = (refl, refl, (refl, refl, tt)); nodes = (refl, refl, tt) }

abbrev messages : List (ℤ × StateRequestMsg)
messages =
    (pos 1000, StateRequestMsg.restart_task "monitor")
    ∷ (pos 1001, StateRequestMsg.get_node "leaf1")
    ∷ (pos 1002, StateRequestMsg.remove_task "web")
    ∷ (pos 1003, StateRequestMsg.set_node_inactive "leaf1")
    ∷ []

abbrev tasks_of : State → String → Option Task
tasks_of s n = TaskList.get_task n s.task_list

abbrev nodes_of : State → String → Option Node
nodes_of s n = NodeList.get_node n s.node_list

serve_all-Shows_example :
    Shows
      (λ n. task_history messages n (tasks_of cluster n))
      (λ n. node_history messages n (nodes_of cluster n))
      (serve_all messages (some cluster))
serve_all-Shows_example =
    serve_all-Shows messages (some cluster) (tasks_of cluster) (nodes_of cluster)
      (λ n. refl, λ n. refl)

-- The history of one name, worked out.
monitor_history :
    task_history messages "monitor" (some monitor)
    ≡ some (record monitor { state = TaskState.restart; last_update = pos 1000 })
unfolding task_history
monitor_history = refl

serve_all_panics_iff_example :
    (serve_all (messages ++ (pos 1000, StateRequestMsg.get_node "spine1") ∷ messages) (some cluster)
      ≡ none)
    ↔ AsksTooMuch cluster (messages ++ (pos 1000, StateRequestMsg.get_node "spine1") ∷ messages)
serve_all_panics_iff_example =
    serve_all_panics_iff (messages ++ (pos 1000, StateRequestMsg.get_node "spine1") ∷ messages)
      cluster

abbrev IsLeaf : String → Type 0
IsLeaf n = "leaf1" ≡ n

leaf-IsKnown : (n : String) → IsLeaf n → IsKnown cluster n
unfolding NodeList.get_node get
leaf-IsKnown n e = subst (IsKnown cluster) e (λ h. cc)

serve_all_total_example :
    (s : State) × (serve_all messages (some cluster) ≡ some s)
    × ((n : String) → IsLeaf n → IsKnown s n)
serve_all_total_example =
    serve_all_total IsLeaf messages cluster leaf-IsKnown (tt, (refl, (tt, (tt, tt))))

member-get_tasks_with_state_example :
    Member web (TaskList.get_tasks_with_state TaskState.running cluster.task_list) ↔ (
      (TaskList.get_task "web" cluster.task_list ≡ some web)
      × (TaskState.running ≡ TaskState.running))
member-get_tasks_with_state_example =
    member-get_tasks_with_state web TaskState.running cluster.task_list cluster-IsValid.tasks

abbrev held_cluster : Contents
held_cluster = Quot.mk (some cluster, cluster-IsValid)

messages_commute_example :
    serve
      ((pos 1000, StateRequestMsg.restart_task "monitor")
        ∷ (pos 1001, StateRequestMsg.remove_task "web")
        ∷ [])
      held_cluster
    ≡ serve
        ((pos 1001, StateRequestMsg.remove_task "web")
          ∷ (pos 1000, StateRequestMsg.restart_task "monitor")
          ∷ [])
        held_cluster
messages_commute_example =
    messages_commute (pos 1000) (pos 1001) (StateRequestMsg.restart_task "monitor")
      (StateRequestMsg.remove_task "web") "monitor" "web" refl refl refl held_cluster

-- The program's history from its start.
abbrev history : List (ℤ × StateRequestMsg)
history =
    (pos 1000, StateRequestMsg.add_node leaf)
    ∷ (pos 1001, StateRequestMsg.start_task web)
    ∷ (pos 1002, StateRequestMsg.set_node_inactive "leaf1")
    ∷ []

abbrev after_history : State
after_history = record (start_state "10.0.0.1" "torc") {
  task_list = ("web", web) ∷ [];
  node_list = ("leaf1", as_inactive leaf) ∷ [];
}

history_leads_there : serve_all history (some (start_state "10.0.0.1" "torc")) ≡ some after_history
unfolding serve_all dispatch start_state Handlers.handle_add_node Handlers.handle_start_task
    Handlers.handle_set_node_inactive NodeList.add_new_node NodeList.set_node_inactive
    TaskList.add_new_task insert modify
history_leads_there = refl

serve_all-Fits_example :
    Fits "torc"
      (λ n. task_history history n none)
      (λ n. node_history history n none)
      (StateRequestMsg.get_node "leaf1")
      (dispatch (pos 1003) after_history (StateRequestMsg.get_node "leaf1"))
serve_all-Fits_example =
    serve_all-Fits "10.0.0.1" "torc" history after_history history_leads_there (pos 1003)
      (StateRequestMsg.get_node "leaf1")
