-- ===== src/Background/Sync.antt =====
-- What one round of the syncing thread of src/state/state.rs makes of the state, while no other
-- thread interferes.
use mathlib.Core.List.{append-nil}
use mathlib.Core.Option
use torc_scheduler.Background.{sync_task, sync_round}
use torc_scheduler.Background.Cleaned.{
  at_some, apply_each-at_some, holds, any-get_tasks_with_state, apply_each_keeps,
}
use torc_scheduler.Client.{emit, for_each, when}
use torc_scheduler.Client.Quiet.{
  Runs, Runs-pure, Runs-bind, Runs-request, Runs-emit, apply_each, flat_map,
}
use torc_scheduler.Client.StateManager.{
  StateManager, request_list_running_tasks, request_task_name_by_id, send_announce_task,
}
use torc_scheduler.Collaborator.{Effect}
use torc_scheduler.Collaborator.Consul.{register_running_task}
use torc_scheduler.Prelude.{
  String, ◌≡◌, refl, ap, subst, ◌∙◌, Bool, true, false, ◌&&◌, Option, none, some, List, [], ◌∷◌,
  ◌++◌, is_empty, ◌==◌, if◌then◌else◌, Bool-cases, inl, inr, Member,
}
use torc_scheduler.Prelude.Int.{ℤ}
use torc_scheduler.Records.{Task, TaskState, same_state}
use torc_scheduler.Server.{State, StateRequestMsg}
use torc_scheduler.Server.Handlers
use torc_scheduler.Server.Serve.{dispatch}
use torc_scheduler.Server.Validity.{IsValid}
use torc_scheduler.TaskList
use torc_scheduler.TaskList.{TaskList, with_last_update}
use torc_scheduler.TaskList.Queries.{member-get_tasks_with_state}
use torc_scheduler.TaskList.View as TaskView
use torc_scheduler.Background.Known.{
  get_task_name_by_id-update, with_update, with_update_idem, Knows, SameNames, Knows-own,
}

module _ (sm : StateManager) (now : ℤ) where
  abbrev pub is_own : Task → Bool
  is_own t = t.controller == sm.my_name

  -- The own tasks that run are refreshed.
  abbrev pub refreshed : Option Task → Option Task
  refreshed none = none
  refreshed (some t) =
      if same_state t.state TaskState.running && is_own t
      then some (with_last_update now t)
      else some t

  abbrev pub registrations : State → List Effect
  registrations s =
      flat_map (register_running_task sm.master_ip)
        (TaskList.get_tasks_with_state TaskState.running s.task_list)

  abbrev refresh : Task → State → State
  refresh = at_some is_own (λ (t : Task). t.name) (with_update now)

  Runs-announce_known :
      (t : Task) (s : State)
      → Knows s.task_list t
      → Runs now (send_announce_task sm t) s tt [] (with_update now t.name s)
  unfolding send_announce_task request_task_name_by_id dispatch Handlers.handle_get_task_name_by_id
      Handlers.handle_update_task_last_update
  Runs-announce_known t s known =
      let name = TaskList.get_task_name_by_id t.id s.task_list in
      Runs-bind now (request_task_name_by_id t.id) _ s s (with_update now t.name s) name tt [] []
        (Runs-request now _ (StateRequestMsg.get_task_name_by_id t.id) s _ refl)
        (rw known
          (Runs-request now (λ _. tt) (StateRequestMsg.update_task_last_update t.name) s _ refl))

  Runs-when_own :
      (b : Bool) (t : Task) (s : State)
      → (b ≡ true → Knows s.task_list t)
      → Runs now
          (when b (send_announce_task sm t))
          s
          tt
          []
          (if b then with_update now t.name s else s)
  Runs-when_own true t s known = Runs-announce_known t s (known refl)
  Runs-when_own false t s known = Runs-pure now tt s

  Runs-sync_task :
      (t : Task) (s : State)
      → (is_own t ≡ true → Knows s.task_list t)
      → Runs now (sync_task sm t) s tt (register_running_task sm.master_ip t ++ []) (refresh t s)
  unfolding sync_task
  Runs-sync_task t s known =
      Runs-bind now (emit (register_running_task sm.master_ip t)) _ s s (refresh t s) tt tt
        (register_running_task sm.master_ip t) [] (Runs-emit now s _)
        (Runs-when_own (is_own t) t s known)

  -- Every own task of the list is known.
  abbrev AllKnown : TaskList → List Task → Type 0
  AllKnown l [] = Unit
  AllKnown l (t ∷ ts) = (is_own t ≡ true → Knows l t) × AllKnown l ts

  SameNames-refresh :
      (t : Task) (s : State) (l : TaskList)
      → SameNames s.task_list l
      → SameNames (refresh t s).task_list l
  SameNames-refresh t s l same id = elim (Bool-cases (is_own t)) [
    | inl e ↦ rw e (get_task_name_by_id-update id t.name now s.task_list ∙ same id)
    | inr e ↦ rw e (same id)
  ]

  Runs-sync_all :
      (ts : List Task) (l : TaskList) (s : State)
      → SameNames s.task_list l
      → AllKnown l ts
      → Runs now
          (for_each (sync_task sm) ts)
          s
          tt
          (flat_map (register_running_task sm.master_ip) ts)
          (apply_each refresh ts s)
  unfolding for_each
  Runs-sync_all [] l s same known = Runs-pure now tt s
  Runs-sync_all (t ∷ ts) l s same known =
      let s1 = refresh t s in
      let calls = register_running_task sm.master_ip t in
      Runs-bind now (sync_task sm t) _ s s1 (apply_each refresh ts s1) tt tt calls
        (flat_map (register_running_task sm.master_ip) ts)
        (subst (λ es. Runs now (sync_task sm t) s tt es s1) (append-nil calls)
          (Runs-sync_task t s (λ own. ap is_empty (same t.id) ∙ known.0 own)))
        (Runs-sync_all ts l s1 (SameNames-refresh t s l same) known.1)

  refresh_keeps : (t : Task) (u : State) → (refresh t u).node_list ≡ u.node_list
  refresh_keeps t u = elim (Bool-cases (is_own t)) [ inl e ↦ rw e refl | inr e ↦ rw e refl ]

  AllKnown-members :
      (l : TaskList) (ts : List Task)
      → ((t : Task) → Member t ts → is_own t ≡ true → Knows l t)
      → AllKnown l ts
  AllKnown-members l [] h = tt
  AllKnown-members l (t ∷ ts) h = (h t (inl refl), AllKnown-members l ts (λ u m. h u (inr m)))

  task-refreshed :
      (s : State) (n : String)
      → IsValid s
      → TaskList.get_task n
          (apply_each refresh
            (TaskList.get_tasks_with_state TaskState.running s.task_list)
            s).task_list
        ≡ refreshed (TaskList.get_task n s.task_list)
  task-refreshed s n h =
      let o = TaskList.get_task n s.task_list in
      apply_each-at_some is_own (λ (t : Task). t.name) (with_update now)
        (λ u. TaskList.get_task n u.task_list) n (Option.map (with_last_update now))
        (λ m u. TaskView.get_task-update_task_last_update u.task_list n now m)
        (with_update_idem now) (TaskList.get_tasks_with_state TaskState.running s.task_list) s
      ∙ ap (λ b. if b then Option.map (with_last_update now) o else o)
          (any-get_tasks_with_state is_own TaskState.running s.task_list n h.tasks)
      ∙ refreshed_lem o
    where
      refreshed_lem :
          (o : Option Task)
          → (if holds (λ t. same_state t.state TaskState.running && is_own t) o
              then Option.map (with_last_update now) o
              else o)
            ≡ refreshed o
      refreshed_lem none = refl
      refreshed_lem (some t) = refl

  -- From a valid state whose tasks have names, and ids if they are own and run, in a quiet
  -- environment: a round of the syncing thread ends, registers the running tasks and calls nothing
  -- else, sets the time of exactly the own running tasks to now, and leaves every other task and
  -- every node.
  pub sync_round_lem :
      (s : State)
      → IsValid s
      → ((n : String) (t : Task) → TaskList.get_task n s.task_list ≡ some t → is_empty n ≡ false)
      → ((n : String) (t : Task)
          → TaskList.get_task n s.task_list ≡ some t
          → t.state ≡ TaskState.running
          → is_own t ≡ true
          → is_empty t.id ≡ false)
      → (s' : State) × Runs now (sync_round sm) s tt (registrations s) s'
        × ((n : String)
            → TaskList.get_task n s'.task_list ≡ refreshed (TaskList.get_task n s.task_list))
        × (s'.node_list ≡ s.node_list)
  unfolding sync_round request_list_running_tasks dispatch Handlers.handle_get_running_tasks
  sync_round_lem s h names ids =
      let running = TaskList.get_tasks_with_state TaskState.running s.task_list in
      let s' = apply_each refresh running s in
      (
        s',
        Runs-bind now request_list_running_tasks _ s s s' running tt [] (registrations s)
            (Runs-request now _ StateRequestMsg.get_running_tasks s _ refl)
            (Runs-sync_all running s.task_list s (λ id. refl)
              (AllKnown-members s.task_list running (λ t m own.
                let (stored, runs) =
                  (member-get_tasks_with_state t TaskState.running s.task_list h.tasks).0 m in
                Knows-own s h names t stored (ids t.name t stored runs own)))),
        λ n. task-refreshed s n h,
        apply_each_keeps (λ u. u.node_list ≡ s.node_list) refresh (λ t u e. refresh_keeps t u ∙ e)
            running s refl,
      )
