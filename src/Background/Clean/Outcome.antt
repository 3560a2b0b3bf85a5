-- ===== src/Background/Clean/Outcome.antt =====
-- The state after a round of the cleaning thread of src/state/state.rs, name by name.
use mathlib.Core.Option
use torc_scheduler.Background.{CleanConfig, clean_round}
use torc_scheduler.Background.Clean.{
  task_name, node_name, without_task, requested_again, with_inactive, is_stale, is_due, is_silent,
  after_running, after_restart, after_nodes, deleted_routes, Runs-clean_round,
}
use torc_scheduler.Background.Cleaned.{
  at_some, apply_each-at_some, apply_each_keeps, holds, any-get_tasks_with_state, any-get_nodes,
}
use torc_scheduler.Client.Quiet.{Runs, apply_each}
use torc_scheduler.Client.StateManager.{StateManager}
use torc_scheduler.NodeList
use torc_scheduler.NodeList.{as_inactive}
use torc_scheduler.NodeList.View as NodeView
use torc_scheduler.Prelude.{
  String, ◌≡◌, refl, ap, ◌∙◌, Bool, true, false, ◌&&◌, Option, none, some, List, arith,
  if◌then◌else◌,
}
use torc_scheduler.Prelude.Int.{ℤ}
use torc_scheduler.Records.{Task, TaskState, Node, same_state}
use torc_scheduler.Server.{State}
use torc_scheduler.Server.Refinement.{Shows}
use torc_scheduler.Server.Validity.{IsValid}
use torc_scheduler.TaskList
use torc_scheduler.TaskList.{with_state}
use torc_scheduler.TaskList.View as TaskView

with_requested_idem :
    (o : Option Task)
    → Option.map (with_state TaskState.requested) (Option.map (with_state TaskState.requested) o)
      ≡ Option.map (with_state TaskState.requested) o
with_requested_idem none = refl
with_requested_idem (some t) = refl

as_inactive_idem :
    (o : Option Node) → Option.map as_inactive (Option.map as_inactive o) ≡ Option.map as_inactive o
as_inactive_idem none = refl
as_inactive_idem (some v) = refl

module _ {A : Type 0} (p : A → Bool) (name : A → String) (next : String → State → State) where
  at_some_keeps :
      (P : State → Type 0)
      → ((m : String) (s : State) → P s → P (next m s))
      → (xs : List A) (s : State) → P s
      → P (apply_each (at_some p name next) xs s)
  at_some_keeps P keep =
      apply_each_keeps P (at_some p name next) (λ x s h. one_round (p x) (name x) s h)
    where
      one_round : (b : Bool) (m : String) (s : State) → P s → P (if b then next m s else s)
      one_round true m s h = keep m s h
      one_round false m s h = h

  at_some-IsValid :
      ((m : String) (s : State) → IsValid s → IsValid (next m s))
      → (xs : List A) (s : State) → IsValid s
      → IsValid (apply_each (at_some p name next) xs s)
  at_some-IsValid = at_some_keeps IsValid

at_some_same :
    {A X : Type 0} (view : State → X) (p : A → Bool) (name : A → String)
    (next : String → State → State)
    → ((m : String) (s : State) → view (next m s) ≡ view s)
    → (xs : List A) (s : State) → view (apply_each (at_some p name next) xs s) ≡ view s
at_some_same view p name next same xs s =
    at_some_keeps p name next (λ u. view u ≡ view s) (λ m u h. same m u ∙ h) xs s refl

module _ (sm : StateManager) (c : CleanConfig) (now : ℤ) where
  -- What a round makes of the task under a name: a stale one that runs is dropped, and one that
  -- waits for its restart is requested again once its delay is over.
  abbrev pub cleaned_task : Option Task → Option Task
  cleaned_task none = none
  cleaned_task (some t) =
      if same_state t.state TaskState.running && is_stale sm c now t
      then none
      else if same_state t.state TaskState.restart && is_due sm c now t
      then some (with_state TaskState.requested t)
      else some t

  -- And of the node under a name: one that has been silent for too long becomes inactive.
  abbrev pub cleaned_node : Option Node → Option Node
  cleaned_node none = none
  cleaned_node (some v) = if is_silent sm c now v then some (as_inactive v) else some v

  abbrev running_tasks : State → List Task
  running_tasks s = TaskList.get_tasks_with_state TaskState.running s.task_list

  abbrev waiting_tasks : State → List Task
  waiting_tasks s = TaskList.get_tasks_with_state TaskState.restart s.task_list

  abbrev task_at : String → State → Option Task
  task_at n s = TaskList.get_task n s.task_list

  abbrev node_at : String → State → Option Node
  node_at n s = NodeList.get_node n s.node_list

  task-after_running :
      (s : State) (n : String)
      → IsValid s
      → task_at n (after_running sm c now s) ≡ (
          if holds (λ t. same_state t.state TaskState.running && is_stale sm c now t) (task_at n s)
          then none
          else task_at n s)
  unfolding after_running
  task-after_running s n h =
      apply_each-at_some (is_stale sm c now) task_name without_task (task_at n) n (λ _. none)
        (λ m u. TaskView.get_task-remove_task_by_name u.task_list n m) (λ o. refl) (running_tasks s)
        s
      ∙ ap (λ b. if b then none else task_at n s)
          (any-get_tasks_with_state (is_stale sm c now) TaskState.running s.task_list n h.tasks)

  task-after_restart :
      (s : State) (n : String)
      → IsValid s
      → task_at n (after_restart sm c now s) ≡ (
          if holds (λ t. same_state t.state TaskState.restart && is_due sm c now t) (task_at n s)
          then Option.map (with_state TaskState.requested) (task_at n s)
          else task_at n s)
  unfolding after_restart
  task-after_restart s n h =
      apply_each-at_some (is_due sm c now) task_name requested_again (task_at n) n
        (Option.map (with_state TaskState.requested))
        (λ m u. TaskView.get_task-set_task_state u.task_list n m TaskState.requested)
        (λ o. with_requested_idem o) (waiting_tasks s) s
      ∙ ap
          (λ b.
            if b then Option.map (with_state TaskState.requested) (task_at n s) else task_at n s)
          (any-get_tasks_with_state (is_due sm c now) TaskState.restart s.task_list n h.tasks)

  node-after_nodes :
      (s : State) (n : String)
      → IsValid s
      → node_at n (after_nodes sm c now s) ≡ (
          if holds (is_silent sm c now) (node_at n s)
          then Option.map as_inactive (node_at n s)
          else node_at n s)
  unfolding after_nodes
  node-after_nodes s n h =
      apply_each-at_some (is_silent sm c now) node_name with_inactive (node_at n) n
        (Option.map as_inactive) (λ m u. NodeView.get_node-set_node_inactive u.node_list n m)
        (λ o. as_inactive_idem o) (NodeList.get_nodes s.node_list) s
      ∙ ap (λ b. if b then Option.map as_inactive (node_at n s) else node_at n s)
          (any-get_nodes (is_silent sm c now) s.node_list n h.nodes)

  -- The loops over tasks leave the nodes alone, and the loop over nodes the tasks.
  node_list-after_running : (s : State) → (after_running sm c now s).node_list ≡ s.node_list
  unfolding after_running
  node_list-after_running s =
      at_some_same (λ u. u.node_list) (is_stale sm c now) task_name without_task (λ m u. refl)
        (running_tasks s) s

  node_list-after_restart : (s : State) → (after_restart sm c now s).node_list ≡ s.node_list
  unfolding after_restart
  node_list-after_restart s =
      at_some_same (λ u. u.node_list) (is_due sm c now) task_name requested_again (λ m u. refl)
        (waiting_tasks s) s

  task_list-after_nodes : (s : State) → (after_nodes sm c now s).task_list ≡ s.task_list
  unfolding after_nodes
  task_list-after_nodes s =
      at_some_same (λ u. u.task_list) (is_silent sm c now) node_name with_inactive (λ m u. refl)
        (NodeList.get_nodes s.node_list) s

  after_running-IsValid : (s : State) → IsValid s → IsValid (after_running sm c now s)
  unfolding after_running
  after_running-IsValid s h =
      at_some-IsValid (is_stale sm c now) task_name without_task
        (λ m u v. record {
          tasks = TaskView.remove_task_by_name-IsValid u.task_list v.tasks m;
          nodes = v.nodes;
        })
        (running_tasks s) s h

  after_restart-IsValid : (s : State) → IsValid s → IsValid (after_restart sm c now s)
  unfolding after_restart
  after_restart-IsValid s h =
      at_some-IsValid (is_due sm c now) task_name requested_again
        (λ m u v. record {
          tasks = TaskView.set_task_state-IsValid u.task_list v.tasks m TaskState.requested;
          nodes = v.nodes;
        })
        (waiting_tasks s) s h

  -- The changes that the three loops make at one name, one after the other.
  abbrev drop_step : Option Task → Option Task
  drop_step o =
      if holds (λ t. same_state t.state TaskState.running && is_stale sm c now t) o then none else o

  abbrev restart_step : Option Task → Option Task
  restart_step o =
      if holds (λ t. same_state t.state TaskState.restart && is_due sm c now t) o
      then Option.map (with_state TaskState.requested) o
      else o

  abbrev node_step : Option Node → Option Node
  node_step o = if holds (is_silent sm c now) o then Option.map as_inactive o else o

  cleaned_task_lem : (o : Option Task) → restart_step (drop_step o) ≡ cleaned_task o
  cleaned_task_lem none = refl
  cleaned_task_lem (some t) = ground arith

  cleaned_node_lem : (o : Option Node) → node_step o ≡ cleaned_node o
  cleaned_node_lem none = refl
  cleaned_node_lem (some v) = refl

  -- From a valid state and in a quiet environment a round of the cleaning thread ends, asks the
  -- network agent to delete the routes of the stale tasks and of no others, drops exactly the stale
  -- running tasks, requests exactly the own waiting tasks whose delay is over, and sets inactive
  -- exactly the nodes that have been silent for too long.
  pub clean_round_lem :
      (s : State)
      → IsValid s
      → (s' : State) × Runs now (clean_round sm c) s tt (deleted_routes sm c now s) s'
        × Shows
            (λ n. cleaned_task (TaskList.get_task n s.task_list))
            (λ n. cleaned_node (NodeList.get_node n s.node_list))
            (some s')
  clean_round_lem s h =
      let s1 = after_running sm c now s in
      let s2 = after_restart sm c now s1 in
      let h1 : IsValid s1 = after_running-IsValid s h in
      let h2 : IsValid s2 = after_restart-IsValid s1 h1 in
      (
        after_nodes sm c now s2,
        Runs-clean_round sm c now s,
        (
          λ n.
              ap (TaskList.get_task n) (task_list-after_nodes s2)
              ∙ task-after_restart s1 n h1
              ∙ ap restart_step (task-after_running s n h)
              ∙ cleaned_task_lem (TaskList.get_task n s.task_list),
          λ n.
              node-after_nodes s2 n h2
              ∙ ap (λ l. node_step (NodeList.get_node n l))
                  (node_list-after_restart s1 ∙ node_list-after_running s)
              ∙ cleaned_node_lem (NodeList.get_node n s.node_list),
        ),
      )
