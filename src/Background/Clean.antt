-- ===== src/Background/Clean.antt =====
-- What one round of the cleaning thread of src/state/state.rs makes of the state, while no other
-- thread interferes.
pub mod Outcome
pub mod Revived
use mathlib.Core.List.{append-nil}
use mathlib.Core.Option
use torc_scheduler.Background.{
  CleanConfig, clean_task, restart_task, clean_node, clean_round, is_overdue,
}
use torc_scheduler.Background.Cleaned.{
  at_some, any, apply_each-at_some, apply_each_keeps, holds, any-get_tasks_with_state,
  any-get_nodes,
}
use torc_scheduler.Client.{pure, read_clock, emit, ◌>>=◌, ◌>>◌, for_each, call, when}
use torc_scheduler.Client.Quiet.{
  Runs, Runs-pure, Runs-bind, Runs-call, Runs-request, Runs-guarded, Runs-guarded_silent, Runs-emit,
  Runs-for_each, Runs-for_each_silent, apply_each, flat_map,
}
use torc_scheduler.Client.StateManager.{
  StateManager, request_list_running_tasks, request_list_restart_tasks, request_list_nodes,
  send_remove_task_by_name, send_update_task_state, send_set_node_inactive,
}
use torc_scheduler.Collaborator.{Effect}
use torc_scheduler.Collaborator.NetworkAgent.{delete_route}
use torc_scheduler.NodeList
use torc_scheduler.NodeList.{as_inactive}
use torc_scheduler.NodeList.View as NodeView
use torc_scheduler.Prelude.{
  String, ◌≡◌, refl, sym, ap, subst, ◌∙◌, Bool, true, false, not, ◌&&◌, Option, none, some, List,
  [], ◌∷◌, ◌++◌, arith, ◌==◌, if◌then◌else◌,
}
use torc_scheduler.Prelude.Int.{ℤ}
use torc_scheduler.Records.{Task, TaskState, Node, same_state}
use torc_scheduler.Server.{State, StateRequestMsg}
use torc_scheduler.Server.Handlers
use torc_scheduler.Server.Serve.{dispatch}
use torc_scheduler.Server.Validity.{IsValid}
use torc_scheduler.TaskList
use torc_scheduler.TaskList.{with_state}
use torc_scheduler.TaskList.View as TaskView

abbrev pub task_name : Task → String
task_name t = t.name

abbrev pub node_name : Node → String
node_name v = v.name

-- The three updates, as functions on the state.
abbrev pub without_task : String → State → State
without_task n s = record s { task_list = TaskList.remove_task_by_name n s.task_list }

abbrev pub requested_again : String → State → State
requested_again n s = record s {
  task_list = TaskList.set_task_state n TaskState.requested s.task_list;
}

abbrev pub with_inactive : String → State → State
with_inactive n s = record s { node_list = NodeList.set_node_inactive n s.node_list }

not-not : (b : Bool) → not (not b) ≡ b
not-not true = refl
not-not false = refl

module _ (sm : StateManager) (c : CleanConfig) (now : ℤ) where
  -- A task of another controller that has not been heard of for too long.
  abbrev pub is_stale : Task → Bool
  is_stale t = not (t.controller == sm.my_name) && is_overdue t.last_update c.timeout now

  -- An own task whose delay before the next start is over.
  abbrev pub is_due : Task → Bool
  is_due t = t.controller == sm.my_name && is_overdue t.last_update c.restart_delay now

  abbrev pub is_silent : Node → Bool
  is_silent v = v.active && is_overdue v.last_seen c.timeout now

  abbrev pub route_calls : Task → List Effect
  route_calls t =
      if is_stale t then delete_route sm.network_agent_type sm.network_agent_connection t.ip else []

  Runs-clean_task :
      (t : Task) (s : State)
      → Runs now
          (clean_task sm c t)
          s
          tt
          (route_calls t)
          (at_some is_stale task_name without_task t s)
  unfolding clean_task send_remove_task_by_name dispatch Handlers.handle_remove_task_by_name
  Runs-clean_task t s =
      let s' = without_task t.name s in
      let calls = delete_route sm.network_agent_type sm.network_agent_connection t.ip in
      Runs-guarded now (t.controller == sm.my_name) (is_overdue t.last_update c.timeout) _ s s'
        calls
        (Runs-bind now (send_remove_task_by_name t.name) (λ _. emit calls) s s' s' tt tt [] calls
          (Runs-request now (λ _. tt) (StateRequestMsg.remove_task t.name) s _ refl)
          (Runs-emit now s' calls))

  Runs-restart_task :
      (t : Task) (s : State)
      → Runs now (restart_task sm c t) s tt [] (at_some is_due task_name requested_again t s)
  unfolding restart_task send_update_task_state dispatch Handlers.handle_update_task_state
  Runs-restart_task t s =
      subst
        (λ own. Runs now (restart_task sm c t) s tt [] (
          if own && is_overdue t.last_update c.restart_delay now
          then requested_again t.name s
          else s))
        (not-not (t.controller == sm.my_name))
        (Runs-guarded_silent now (not (t.controller == sm.my_name))
          (is_overdue t.last_update c.restart_delay) _ s (requested_again t.name s)
          (Runs-request now (λ _. tt) (StateRequestMsg.update_task_state t.name TaskState.requested)
            s _ refl))

  Runs-clean_node :
      (v : Node) (s : State)
      → Runs now (clean_node c v) s tt [] (at_some is_silent node_name with_inactive v s)
  unfolding clean_node send_set_node_inactive dispatch Handlers.handle_set_node_inactive
  Runs-clean_node v s =
      subst
        (λ active.
          Runs now (clean_node c v) s tt []
            (if active && is_overdue v.last_seen c.timeout now then with_inactive v.name s else s))
        (not-not v.active)
        (Runs-guarded_silent now (not v.active) (is_overdue v.last_seen c.timeout) _ s
          (with_inactive v.name s)
          (Runs-request now (λ _. tt) (StateRequestMsg.set_node_inactive v.name) s _ refl))

  -- The state after each of the three loops.
  pub after_running : State → State
  after_running s =
      apply_each (at_some is_stale task_name without_task)
        (TaskList.get_tasks_with_state TaskState.running s.task_list) s

  pub after_restart : State → State
  after_restart s =
      apply_each (at_some is_due task_name requested_again)
        (TaskList.get_tasks_with_state TaskState.restart s.task_list) s

  pub after_nodes : State → State
  after_nodes s =
      apply_each (at_some is_silent node_name with_inactive) (NodeList.get_nodes s.node_list) s

  abbrev pub deleted_routes : State → List Effect
  deleted_routes s =
      flat_map route_calls (TaskList.get_tasks_with_state TaskState.running s.task_list)

  pub Runs-clean_round :
      (s : State)
      → Runs now
          (clean_round sm c)
          s
          tt
          (deleted_routes s)
          (after_nodes (after_restart (after_running s)))
  unfolding clean_round request_list_running_tasks request_list_restart_tasks request_list_nodes
      after_running after_restart after_nodes dispatch Handlers.handle_get_running_tasks
      Handlers.handle_get_restart_tasks Handlers.handle_get_nodes
  Runs-clean_round s =
      let s1 = after_running s in
      let s2 = after_restart s1 in
      let s3 = after_nodes s2 in
      let running = TaskList.get_tasks_with_state TaskState.running s.task_list in
      let waiting = TaskList.get_tasks_with_state TaskState.restart s1.task_list in
      let nodes = NodeList.get_nodes s2.node_list in
      subst (λ es. Runs now (clean_round sm c) s tt es s3) (append-nil (deleted_routes s))
        (Runs-bind now request_list_running_tasks _ s s s3 running tt [] _
          (Runs-request now _ StateRequestMsg.get_running_tasks s _ refl)
          (Runs-bind now (for_each (clean_task sm c) running) _ s s1 s3 tt tt (deleted_routes s) []
            (Runs-for_each now (clean_task sm c) (at_some is_stale task_name without_task)
              route_calls Runs-clean_task running s)
            (Runs-bind now request_list_restart_tasks _ s1 s1 s3 waiting tt [] []
              (Runs-request now _ StateRequestMsg.get_restart_tasks s1 _ refl)
              (Runs-bind now (for_each (restart_task sm c) waiting) _ s1 s2 s3 tt tt [] []
                (Runs-for_each_silent now (restart_task sm c)
                  (at_some is_due task_name requested_again) Runs-restart_task waiting s1)
                (Runs-bind now request_list_nodes _ s2 s2 s3 nodes tt [] []
                  (Runs-request now _ StateRequestMsg.get_nodes s2 _ refl)
                  (Runs-for_each_silent now (clean_node c)
                    (at_some is_silent node_name with_inactive) Runs-clean_node nodes s2))))))
