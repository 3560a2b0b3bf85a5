-- ===== src/Health/Kept.antt =====
-- What a round of src/health/run_health_checker.rs makes of the tasks, while no other thread
-- interferes.
use torc_scheduler.Background.Cleaned.{apply_each_keeps}
use torc_scheduler.Client.{emit, for_each, read_clock}
use torc_scheduler.Client.Quiet.{
  Runs, Runs-pure, Runs-bind, Runs-request, Runs-emit, Runs-read_clock, Runs-for_each_silent,
  apply_each, flat_map,
}
use torc_scheduler.Client.StateManager.{
  StateManager, TaskConfig, new_task, request_task_state, send_start_task,
}
use torc_scheduler.Collaborator.{Effect}
use torc_scheduler.Collaborator.Consul.{register_torc_controller, register_unmanaged_service}
use torc_scheduler.Config.Settings.{DnsEntry}
use torc_scheduler.Health.{check_task, start_if_down, health_round, register_entry}
use torc_scheduler.Prelude.{
  String, ◌≡◌, refl, ap, ◌∙◌, inl, inr, Bool, true, Option, none, some, List, [], ◌∷◌, ◌++◌, ◌&&◌,
  Bool-cases, arith, ◌==◌, eq_iff, if◌then◌else◌,
}
use torc_scheduler.Prelude.Int.{ℤ}
use torc_scheduler.Records.{Task, TaskState, same_state}
use torc_scheduler.Server.{State, StateRequestMsg}
use torc_scheduler.Server.Handlers
use torc_scheduler.Server.Serve.{dispatch}
use torc_scheduler.TaskList
use torc_scheduler.TaskList.View as TaskView

-- No task of that name runs, waits or has been asked for.
abbrev pub is_down : Option Task → Bool
is_down none = true
is_down (some t) = same_state t.state TaskState.not_running

is_down_lem :
    (n : String) (s : State)
    → same_state (TaskList.get_task_state n s.task_list) TaskState.not_running
      ≡ is_down (TaskList.get_task n s.task_list)
unfolding TaskList.get_task_state TaskList.get_task same_state
is_down_lem n s = ground arith

-- The first service of that name in the configuration.
unfoldable pub configured : String → List TaskConfig → Option TaskConfig
configured n [] = none
configured n (c ∷ cs) = let later = configured n cs in if c.name == n then some c else later

module _ (sm : StateManager) (now : ℤ) where
  abbrev pub start_from : TaskState → TaskConfig → State → State
  start_from TaskState.not_running task s = record s {
    task_list = TaskList.add_new_task (new_task sm task true now) s.task_list;
  }
  start_from _ task s = s

  -- What a check of one service makes of the state.
  abbrev pub checked : TaskConfig → State → State
  checked task s = start_from (TaskList.get_task_state task.name s.task_list) task s

  Runs-send_start_task :
      (task : TaskConfig) (s : State)
      → Runs now (send_start_task sm task true) s tt [] (start_from TaskState.not_running task s)
  unfolding send_start_task dispatch Handlers.handle_start_task
  Runs-send_start_task task s =
      Runs-bind now read_clock _ s s (start_from TaskState.not_running task s) now tt [] []
        (Runs-read_clock now s)
        (Runs-request now (λ _. tt) (StateRequestMsg.start_task (new_task sm task true now)) s _
          refl)

  Runs-start_if_down :
      (k : TaskState) (task : TaskConfig) (s : State)
      → Runs now (start_if_down sm task k) s tt [] (start_from k task s)
  Runs-start_if_down TaskState.not_running task s = Runs-send_start_task task s
  Runs-start_if_down TaskState.restart task s = Runs-pure now tt s
  Runs-start_if_down TaskState.requested task s = Runs-pure now tt s
  Runs-start_if_down TaskState.accepted task s = Runs-pure now tt s
  Runs-start_if_down TaskState.running task s = Runs-pure now tt s

  Runs-check_task :
      (task : TaskConfig) (s : State) → Runs now (check_task sm task) s tt [] (checked task s)
  unfolding check_task request_task_state dispatch Handlers.handle_get_task_state
  Runs-check_task task s =
      let k = TaskList.get_task_state task.name s.task_list in
      Runs-bind now (request_task_state task.name) (start_if_down sm task) s s (checked task s) k tt
        [] [] (Runs-request now _ (StateRequestMsg.get_task_state task.name) s _ refl)
        (Runs-start_if_down k task s)

  -- What one check makes of the task under a name.
  abbrev step : TaskConfig → String → Option Task → Option Task
  step c n o = if c.name == n && is_down o then some (new_task sm c true now) else o

  start_from_lem :
      (k : TaskState) (c : TaskConfig) (n : String) (s : State)
      → TaskList.get_task n (start_from k c s).task_list ≡ (
          if c.name == n && same_state k TaskState.not_running
          then some (new_task sm c true now)
          else TaskList.get_task n s.task_list)
  unfolding same_state
  start_from_lem TaskState.not_running c n s =
      TaskView.get_task-add_new_task s.task_list n (new_task sm c true now) ∙ ground arith
  start_from_lem TaskState.restart c n s = ground arith
  start_from_lem TaskState.requested c n s = ground arith
  start_from_lem TaskState.accepted c n s = ground arith
  start_from_lem TaskState.running c n s = ground arith

  checked_lem :
      (c : TaskConfig) (n : String) (s : State)
      → TaskList.get_task n (checked c s).task_list ≡ step c n (TaskList.get_task n s.task_list)
  checked_lem c n s = elim (Bool-cases (c.name == n)) [
    | inl e ↦
        start_from_lem (TaskList.get_task_state c.name s.task_list) c n s
        ∙ ap
            (λ b.
              if c.name == n && b
              then some (new_task sm c true now)
              else TaskList.get_task n s.task_list)
            (ap (λ m. same_state (TaskList.get_task_state m s.task_list) TaskState.not_running)
                ((eq_iff c.name n).0 e)
              ∙ is_down_lem n s)
    | inr e ↦ start_from_lem (TaskList.get_task_state c.name s.task_list) c n s ∙ rw e refl
  ]

  -- What a round makes of the task under a name: a task that is up is left alone, and a service that
  -- is down is requested anew, as the first of that name in the configuration says.
  abbrev pub kept : List TaskConfig → String → Option Task → Option Task
  kept tasks n o =
      if is_down o
      then elim (configured n tasks) [ some c ↦ some (new_task sm c true now) | none ↦ o ]
      else o

  kept-step :
      (c : TaskConfig) (cs : List TaskConfig) (n : String) (o : Option Task)
      → kept cs n (step c n o) ≡ kept (c ∷ cs) n o
  unfolding configured same_state
  kept-step c cs n o = ground arith

  kept-apply_each :
      (tasks : List TaskConfig) (n : String) (s : State)
      → TaskList.get_task n (apply_each checked tasks s).task_list
        ≡ kept tasks n (TaskList.get_task n s.task_list)
  unfolding configured
  kept-apply_each [] n s = ground arith
  kept-apply_each (c ∷ cs) n s =
      kept-apply_each cs n (checked c s)
      ∙ ap (kept cs n) (checked_lem c n s)
      ∙ kept-step c cs n (TaskList.get_task n s.task_list)

  node_list-apply_each :
      (tasks : List TaskConfig) (s : State) → (apply_each checked tasks s).node_list ≡ s.node_list
  node_list-apply_each tasks s =
      apply_each_keeps (λ u. u.node_list ≡ s.node_list) checked
        (λ c u h. node_list-start_from (TaskList.get_task_state c.name u.task_list) c u ∙ h) tasks s
        refl
    where
      node_list-start_from :
          (k : TaskState) (c : TaskConfig) (u : State) → (start_from k c u).node_list ≡ u.node_list
      node_list-start_from TaskState.not_running c u = refl
      node_list-start_from _ c u = refl

  -- What a round registers.
  abbrev pub registered : List DnsEntry → List Effect
  registered entries =
      register_torc_controller sm.master_ip sm.my_name sm.my_ip
      ++ flat_map (λ (e : DnsEntry). register_unmanaged_service sm.master_ip e.name e.ip) entries

  Runs-entries :
      (entries : List DnsEntry) (s : State)
      → Runs now
          (for_each (register_entry sm) entries)
          s
          tt
          (flat_map (λ (e : DnsEntry). register_unmanaged_service sm.master_ip e.name e.ip) entries)
          s
  unfolding for_each
  Runs-entries [] s = Runs-pure now tt s
  Runs-entries (e ∷ es) s =
      Runs-bind now (register_entry sm e) (λ _. for_each (register_entry sm) es) s s s tt tt
        (register_unmanaged_service sm.master_ip e.name e.ip) _ (Runs-emit now s _)
        (Runs-entries es s)

  -- In a quiet environment a round of the health checker ends, registers the controller and every
  -- entry, leaves every node and every task that is up, and requests exactly the configured
  -- services that were down, each as the first service of its name in the configuration says.
  pub health_round_lem :
      (tasks : List TaskConfig) (entries : List DnsEntry) (s : State)
      → (s' : State) × Runs now (health_round sm tasks entries) s tt (registered entries) s'
        × ((n : String)
            → TaskList.get_task n s'.task_list ≡ kept tasks n (TaskList.get_task n s.task_list))
        × (s'.node_list ≡ s.node_list)
  unfolding health_round
  health_round_lem tasks entries s =
      let s' = apply_each checked tasks s in
      (
        s',
        Runs-bind now (for_each (check_task sm) tasks) _ s s' s' tt tt [] (registered entries)
            (Runs-for_each_silent now (check_task sm) checked Runs-check_task tasks s)
            (Runs-bind now (emit (register_torc_controller sm.master_ip sm.my_name sm.my_ip)) _ s'
              s' s' tt tt (register_torc_controller sm.master_ip sm.my_name sm.my_ip) _
              (Runs-emit now s' _) (Runs-entries entries s')),
        λ n. kept-apply_each tasks n s,
        node_list-apply_each tasks s,
      )
