-- ===== src/Scheduler/Update/Again.antt =====
-- A system service that ends, and the cleaning round of src/state/state.rs that comes after its delay:
-- `update` of src/scheduler/scheduler_impl.rs and `start_cleaning` one after the other.
use torc_scheduler.Background.{CleanConfig, clean_round, is_overdue}
use torc_scheduler.Background.Clean.{deleted_routes}
use torc_scheduler.Background.Clean.Outcome.{cleaned_task, clean_round_lem}
use torc_scheduler.Client.Quiet.{Runs, Runs-bind, Runs-request}
use torc_scheduler.Client.StateManager.{
  StateManager, request_is_restartable_task, send_restart_task, send_remove_task_by_name,
}
use torc_scheduler.Mesos.{MesosTaskState, TaskStatus}
use torc_scheduler.Prelude.{
  String, ◌≡◌, refl, sym, ap, subst, ◌∙◌, Bool, true, false, none, some, [], arith, eq_refl,
  if◌then◌else◌,
}
use torc_scheduler.Prelude.Int.{ℤ}
use torc_scheduler.Records.{Task, TaskState, same_state}
use torc_scheduler.Scheduler.Update.{JsonLibrary, task_ended, react, update}
use torc_scheduler.Scheduler.Update.Outcome.{HasEnded}
use torc_scheduler.Server.{State, StateRequestMsg}
use torc_scheduler.Server.Handlers
use torc_scheduler.Server.Handlers.{is_restartable}
use torc_scheduler.Server.Serve.{dispatch}
use torc_scheduler.Server.Validity.{IsValid}
use torc_scheduler.TaskList
use torc_scheduler.TaskList.{with_state, with_last_update}
use torc_scheduler.TaskList.View as TaskView

abbrev restarting : ℤ → String → State → State
restarting now n s = record s {
  task_list =
      TaskList.set_task_state n TaskState.restart
        (TaskList.update_task_last_update now n s.task_list);
}

restarting-IsValid : (now : ℤ) (n : String) (s : State) → IsValid s → IsValid (restarting now n s)
restarting-IsValid now n s h = record {
  tasks =
      TaskView.set_task_state-IsValid (TaskList.update_task_last_update now n s.task_list)
        (TaskView.update_task_last_update-IsValid s.task_list h.tasks now n) n TaskState.restart;
  nodes = h.nodes;
}

get_task-restarting :
    (now : ℤ) (n : String) (t : Task) (s : State)
    → TaskList.get_task n s.task_list ≡ some t
    → TaskList.get_task n (restarting now n s).task_list
      ≡ some (with_state TaskState.restart (with_last_update now t))
get_task-restarting now n t s e = ground (
  arith,
  eq_refl n,
  TaskView.get_task-set_task_state (TaskList.update_task_last_update now n s.task_list) n n
      TaskState.restart,
  TaskView.get_task-update_task_last_update s.task_list n now n,
)

Runs-restart :
    (now : ℤ) (n : String) (t : Task) (s : State)
    → TaskList.get_task n s.task_list ≡ some t
    → is_restartable s.my_name t ≡ true
    → Runs now (task_ended n) s tt [] (restarting now n s)
unfolding task_ended request_is_restartable_task send_restart_task dispatch
    Handlers.handle_get_is_restartable_task Handlers.handle_restart_task
Runs-restart now n t s stored restartable =
    let s1 = restarting now n s in
    let answer : Bool = elim (TaskList.get_task n s.task_list) [
      | some u ↦ is_restartable s.my_name u
      | none ↦ false
    ] in
    let yes_answer : answer ≡ true =
      ap (λ o. elim o [ some u ↦ is_restartable s.my_name u | none ↦ false ]) stored
      ∙ restartable in
    Runs-bind now (request_is_restartable_task n) _ s s s1 answer tt [] []
      (Runs-request now _ (StateRequestMsg.get_is_restartable_task n) s _ refl)
      (subst
        (λ b. Runs now (if b then send_restart_task n else send_remove_task_by_name n) s tt [] s1)
        (sym yes_answer) (Runs-request now (λ _. tt) (StateRequestMsg.restart_task n) s _ refl))

Runs-update :
    (lib : JsonLibrary) (now : ℤ) (k : MesosTaskState) (status : TaskStatus) (s s' : State)
    → HasEnded k
    → Runs now (task_ended status.task_id) s tt [] s'
    → Runs now (react lib k status) s tt [] s'
Runs-update lib now MesosTaskState.task_running status s s' h r = absurd h
Runs-update lib now MesosTaskState.other status s s' h r = absurd h
Runs-update lib now _ status s s' h r = r

due_again :
    (sm : StateManager) (c : CleanConfig) (now later : ℤ) (t : Task)
    → is_restartable sm.my_name t ≡ true
    → is_overdue now c.restart_delay later ≡ true
    → cleaned_task sm c later (some (with_state TaskState.restart (with_last_update now t)))
      ≡ some (with_state TaskState.requested (with_last_update now t))
unfolding same_state
due_again sm c now later t restartable overdue = ground arith

-- From a valid state and in a quiet environment: after a report that an own system service that is
-- no job has ended, a round of the cleaning thread at a time past the restart delay leaves that
-- service requested again.
pub ended_service_is_requested_again :
    (lib : JsonLibrary) (sm : StateManager) (c : CleanConfig) (now later : ℤ) (s : State)
    (status : TaskStatus) (t : Task)
    → IsValid s
    → HasEnded status.state
    → TaskList.get_task status.task_id s.task_list ≡ some t
    → is_restartable s.my_name t ≡ true
    → sm.my_name ≡ s.my_name
    → is_overdue now c.restart_delay later ≡ true
    → (s1 : State) × (s2 : State) × Runs now (update lib status) s tt [] s1
      × Runs later (clean_round sm c) s1 tt (deleted_routes sm c later s1) s2
      × (TaskList.get_task status.task_id s2.task_list
          ≡ some (with_state TaskState.requested (with_last_update now t)))
unfolding update
ended_service_is_requested_again lib sm c now later s status t h ends stored restartable named
      overdue =
    let n = status.task_id in
    let s1 = restarting now n s in
    let (s2, cleaned, shown) = clean_round_lem sm c later s1 (restarting-IsValid now n s h) in
    (
      s1,
      s2,
      Runs-update lib now status.state status s s1 ends (Runs-restart now n t s stored restartable),
      cleaned,
      shown.0 n
          ∙ ap (cleaned_task sm c later) (get_task-restarting now n t s stored)
          ∙ due_again sm c now later t (ap (λ m. is_restartable m t) named ∙ restartable) overdue,
    )
