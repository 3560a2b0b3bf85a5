-- ===== src/Scheduler/Update/Outcome.antt =====
-- What `update` of src/scheduler/scheduler_impl.rs makes of a task that mesos reports on, while no
-- other thread interferes.
use mathlib.Core.Option
use torc_scheduler.Client.Quiet.{Runs, Runs-bind, Runs-request}
use torc_scheduler.Client.StateManager.{
  request_is_restartable_task, send_restart_task, send_remove_task_by_name,
}
use torc_scheduler.Mesos.{MesosTaskState, TaskStatus}
use torc_scheduler.Prelude.{
  String, ◌≡◌, refl, ap, ◌∙◌, Bool, true, false, Option, none, some, [], ◌==◌, if◌then◌else◌,
  eq_iff, Bool-cases, inl, inr,
}
use torc_scheduler.Prelude.Int.{ℤ}
use torc_scheduler.Records.{Task, TaskState}
use torc_scheduler.Scheduler.Update.{JsonLibrary, task_ended, react, update}
use torc_scheduler.Server.{State, StateRequestMsg}
use torc_scheduler.Server.Handlers
use torc_scheduler.Server.Handlers.{is_restartable}
use torc_scheduler.Server.Refinement.{task_after, dispatch-Refines}
use torc_scheduler.Server.Serve.{dispatch}
use torc_scheduler.TaskList
use torc_scheduler.TaskList.{with_state, with_last_update}

-- What the end of a task makes of the task that is stored: an own system service that is no job
-- waits for its restart, anything else is forgotten.
abbrev pub ended : String → ℤ → Option Task → Option Task
ended my_name now none = none
ended my_name now (some t) =
    if is_restartable my_name t
    then some (with_state TaskState.restart (with_last_update now t))
    else none

-- The states in which a task has ended.
abbrev pub HasEnded : MesosTaskState → Type 0
HasEnded MesosTaskState.task_running = ⊥
HasEnded MesosTaskState.other = ⊥
HasEnded _ = Unit

abbrev restartable : String → Option Task → Bool
restartable my_name o = elim o [ some t ↦ is_restartable my_name t | none ↦ false ]

abbrev restartable_in : String → State → Bool
restartable_in n s = restartable s.my_name (TaskList.get_task n s.task_list)

abbrev restarted : ℤ → Task → Task
restarted now t = with_state TaskState.restart (with_last_update now t)

ended_lem :
    (my_name : String) (now : ℤ) (o : Option Task)
    → (if restartable my_name o then Option.map (restarted now) o else none) ≡ ended my_name now o
ended_lem my_name now none = refl
ended_lem my_name now (some t) = refl

after_reaction :
    (now : ℤ) (n : String) (b : Bool) (m : String) (o : Option Task)
    → task_after now
        (if b then StateRequestMsg.restart_task n else StateRequestMsg.remove_task n)
        m
        o
      ≡ (if n == m then (if b then Option.map (restarted now) o else none) else o)
after_reaction now n true m o = refl
after_reaction now n false m o = refl

-- The message that the end of a task leads to.
abbrev reaction : String → State → StateRequestMsg
reaction n s =
    if restartable_in n s then StateRequestMsg.restart_task n else StateRequestMsg.remove_task n

module _ (now : ℤ) (n : String) (s : State) where
  ends_as :
      (b : Bool)
      → (s' : State) × Runs now
          (if b then send_restart_task n else send_remove_task_by_name n)
          s
          tt
          []
          s'
        × ((m : String)
            → TaskList.get_task m s'.task_list
              ≡ task_after now
                  (if b then StateRequestMsg.restart_task n else StateRequestMsg.remove_task n)
                  m
                  (TaskList.get_task m s.task_list))
        × (s'.node_list ≡ s.node_list)
  unfolding send_restart_task send_remove_task_by_name dispatch Handlers.handle_restart_task
      Handlers.handle_remove_task_by_name
  ends_as true = (
    _,
    Runs-request now (λ _. tt) (StateRequestMsg.restart_task n) s _ refl,
    (dispatch-Refines now s (StateRequestMsg.restart_task n)).0,
    refl,
  )
  ends_as false = (
    _,
    Runs-request now (λ _. tt) (StateRequestMsg.remove_task n) s _ refl,
    (dispatch-Refines now s (StateRequestMsg.remove_task n)).0,
    refl,
  )

  reaction_lem :
      (m : String)
      → task_after now (reaction n s) m (TaskList.get_task m s.task_list) ≡ (
          if n == m
          then ended s.my_name now (TaskList.get_task m s.task_list)
          else TaskList.get_task m s.task_list)
  reaction_lem m = elim (Bool-cases (n == m)) [
    | inl e ↦
        after_reaction now n (restartable_in n s) m (TaskList.get_task m s.task_list)
        ∙ rw e (
            ap
              (λ o.
                if restartable s.my_name o
                then Option.map (restarted now) (TaskList.get_task m s.task_list)
                else none)
              (ap (λ k. TaskList.get_task k s.task_list) ((eq_iff n m).0 e))
            ∙ ended_lem s.my_name now (TaskList.get_task m s.task_list))
    | inr e ↦
        after_reaction now n (restartable_in n s) m (TaskList.get_task m s.task_list) ∙ rw e refl
  ]

  Runs-task_ended :
      (s' : State) × Runs now (task_ended n) s tt [] s'
      × ((m : String)
          → TaskList.get_task m s'.task_list ≡ (
              if n == m
              then ended s.my_name now (TaskList.get_task m s.task_list)
              else TaskList.get_task m s.task_list))
      × (s'.node_list ≡ s.node_list)
  unfolding task_ended request_is_restartable_task dispatch Handlers.handle_get_is_restartable_task
  Runs-task_ended =
      let (s', runs, tasks, nodes) = ends_as (restartable_in n s) in
      (
        s',
        Runs-bind now (request_is_restartable_task n) _ s s s' (restartable_in n s) tt [] []
            (Runs-request now _ (StateRequestMsg.get_is_restartable_task n) s _ refl) runs,
        λ m. tasks m ∙ reaction_lem m,
        nodes,
      )

-- In a quiet environment a report that a task has finished, failed, been killed or lost ends
-- without a panic and without calls of other systems; the task named is set to restart, with its
-- clock reset, if it is an own system service and no job, and is removed otherwise; every other
-- task and every node is left alone.
pub update-ended :
    (lib : JsonLibrary) (now : ℤ) (s : State) (status : TaskStatus)
    → HasEnded status.state
    → (s' : State) × Runs now (update lib status) s tt [] s'
      × ((m : String)
          → TaskList.get_task m s'.task_list ≡ (
              if status.task_id == m
              then ended s.my_name now (TaskList.get_task m s.task_list)
              else TaskList.get_task m s.task_list))
      × (s'.node_list ≡ s.node_list)
unfolding update
update-ended lib now s status h = by_state status.state h
  where
    by_state :
        (k : MesosTaskState)
        → HasEnded k
        → (s' : State) × Runs now (react lib k status) s tt [] s'
          × ((m : String)
              → TaskList.get_task m s'.task_list ≡ (
                  if status.task_id == m
                  then ended s.my_name now (TaskList.get_task m s.task_list)
                  else TaskList.get_task m s.task_list))
          × (s'.node_list ≡ s.node_list)
    by_state MesosTaskState.task_running h = absurd h
    by_state MesosTaskState.other h = absurd h
    by_state _ h = Runs-task_ended now status.task_id s
