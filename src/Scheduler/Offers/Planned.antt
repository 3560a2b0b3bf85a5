-- ===== src/Scheduler/Offers/Planned.antt =====
-- The loops of `offers` of src/scheduler/scheduler_impl.rs against the plan, while no other thread
-- interferes.
use torc_scheduler.Client.{Exec, pure, unwrap, when, ◌>>=◌}
use torc_scheduler.Client.Quiet.{
  Runs, Runs-pure, Runs-bind, Runs-unwrap, Runs-request, Runs-when_silent,
}
use torc_scheduler.Client.StateManager.{
  request_is_node_active, send_update_node, request_task_state, send_update_task_state,
  send_update_task_node_name,
}
use torc_scheduler.Mesos.{Parameter, TaskInfo}
use torc_scheduler.NodeList
use torc_scheduler.Prelude.{
  String, ◌≡◌, refl, sym, ap, subst, ◌∙◌, Bool, true, false, not, ◌&&◌, ◌||◌, Option, none, some,
  List, [], ◌∷◌, arith, inl, inr, is_empty, Bool-cases, if◌then◌else◌,
}
use torc_scheduler.Prelude.Int.{ℤ}
use torc_scheduler.Records.{Task, TaskState, same_state}
use torc_scheduler.Scheduler.Container.{all_parameters, parameters_for, task_info_for}
use torc_scheduler.Scheduler.Offers.{
  Seen, note_node, match_task, match_one, accept_task, dependency_runs, is_elsewhere, is_too_small,
}
use torc_scheduler.Scheduler.Offers.Plan.{fits, first_fit, own_parameters}
use torc_scheduler.Scheduler.Offers.Total.{AllParse}
use torc_scheduler.Server.{State, StateRequestMsg}
use torc_scheduler.Server.Handlers
use torc_scheduler.Server.Serve.{dispatch}
use torc_scheduler.TaskList

-- The services that run in a state.
abbrev pub runs_in : State → String → Bool
runs_in s d = same_state (TaskList.get_task_state d s.task_list) TaskState.running

abbrev pub holds : State → Task → Bool
holds s t = if is_empty t.dependent_service then true else runs_in s t.dependent_service

-- The tests of the loop, together.
pub fits_lem :
    (s : State) (seen : Seen) (t : Task)
    → fits (runs_in s) seen t
      ≡ (not (is_elsewhere seen t) && holds s t && not (is_too_small seen t))
fits_lem s seen t = ground arith

abbrev asked : ℤ → Seen → State → State
asked now seen s = record s {
  node_list = (NodeList.is_node_active now seen.node_name s.node_list).1;
}

abbrev updated : Seen → String → State → State
updated seen slave s = record s {
  node_list =
      NodeList.update_node seen.node_name seen.node_type seen.node_function slave s.node_list;
}

abbrev pub noted : ℤ → Seen → String → State → State
noted now seen slave s =
    if not (NodeList.is_node_active now seen.node_name s.node_list).0
    then updated seen slave (asked now seen s)
    else asked now seen s

abbrev with_state_accepted : Task → State → State
with_state_accepted t s = record s {
  task_list = TaskList.set_task_state t.name TaskState.accepted s.task_list;
}

abbrev pub asks_for_node : Task → Bool
asks_for_node t = not (is_empty t.node_type) || not (is_empty t.node_function)

abbrev with_node : Seen → Task → State → State
with_node seen t s = record s {
  task_list = TaskList.set_task_node_name t.name seen.node_name s.task_list;
}

abbrev pub accepted : Seen → Task → State → State
accepted seen t s =
    let s1 = with_state_accepted t s in if asks_for_node t then with_node seen t s1 else s1

abbrev pub after_found : Seen → Option Task → State → State
after_found seen none s = s
after_found seen (some t) s = accepted seen t s

abbrev pub info_for : String → Task → TaskInfo
info_for slave_id t = task_info_for t slave_id (own_parameters t)

abbrev pub found_info : String → Option Task → Option TaskInfo
found_info slave_id none = none
found_info slave_id (some t) = some (info_for slave_id t)

module _ (now : ℤ) where
  pub Runs-note_node :
      (seen : Seen) (slave : String) (s : State)
      → Runs now (note_node seen slave) s tt [] (noted now seen slave s)
  unfolding note_node request_is_node_active send_update_node dispatch
      Handlers.handle_get_is_node_active Handlers.handle_update_node
  Runs-note_node seen slave s =
      let active : Bool = (NodeList.is_node_active now seen.node_name s.node_list).0 in
      let s1 = asked now seen s in
      Runs-bind now (request_is_node_active seen.node_name) _ s s1 (noted now seen slave s) active
        tt [] [] (Runs-request now _ (StateRequestMsg.get_is_node_active seen.node_name) s _ refl)
        (Runs-when_silent now (not active) _ s1 (updated seen slave s1) (
          Runs-request now (λ _. tt)
            (StateRequestMsg.update_node seen.node_name seen.node_type seen.node_function slave) s1
            _ refl))

  Runs-dependency_runs : (t : Task) (s : State) → Runs now (dependency_runs t) s (holds s t) [] s
  unfolding dependency_runs request_task_state dispatch Handlers.handle_get_task_state
  Runs-dependency_runs t s = elim (Bool-cases (is_empty t.dependent_service)) [
    | inl e ↦ rw e (Runs-pure now true s)
    | inr e ↦ rw e (
        Runs-bind now (request_task_state t.dependent_service) _ s s s
          (TaskList.get_task_state t.dependent_service s.task_list) (runs_in s t.dependent_service)
          [] [] (Runs-request now _ (StateRequestMsg.get_task_state t.dependent_service) s _ refl)
          (Runs-pure now _ s))
  ]

  module _ (slave_id : String) (seen : Seen) where
    Runs-accept_task :
        (t : Task) (ps : List Parameter) (s : State)
        → parameters_for (all_parameters t) ≡ some ps
        → Runs now
            (accept_task slave_id seen t)
            s
            (task_info_for t slave_id ps)
            []
            (accepted seen t s)
    unfolding accept_task send_update_task_state send_update_task_node_name dispatch
        Handlers.handle_update_task_state Handlers.handle_update_task_node_name
    Runs-accept_task t ps s parsed =
        let s1 = with_state_accepted t s in
        let s2 = accepted seen t s in
        let info = task_info_for t slave_id ps in
        Runs-bind now (send_update_task_state t.name TaskState.accepted) _ s s1 s2 tt info [] []
          (Runs-request now (λ _. tt) (StateRequestMsg.update_task_state t.name TaskState.accepted)
            s _ refl)
          (Runs-bind now (when (asks_for_node t) (send_update_task_node_name t.name seen.node_name))
            _ s1 s2 s2 tt info [] []
            (Runs-when_silent now (asks_for_node t) _ s1 (with_node seen t s1) (
              Runs-request now (λ _. tt)
                (StateRequestMsg.update_task_node_name t.name seen.node_name) s1 _ refl))
            (Runs-bind now (unwrap (parameters_for (all_parameters t))) _ s2 s2 s2 ps info [] []
              (Runs-unwrap now _ ps s2 parsed) (Runs-pure now info s2)))

    -- The rest of the loop is run if the task does not fit.
    Runs-match_one :
        (t : Task) (ps : List Parameter) (next : Exec (Option TaskInfo)) (s s' : State)
        (o : Option TaskInfo)
        → parameters_for (all_parameters t) ≡ some ps
        → Runs now next s o [] s'
        → Runs now
            (match_one slave_id seen t next)
            s
            (if fits (runs_in s) seen t then some (task_info_for t slave_id ps) else o)
            []
            (if fits (runs_in s) seen t then accepted seen t s else s')
    unfolding match_one
    Runs-match_one t ps next s s' o parsed rest =
        rw (fits_lem s seen t) (elim (Bool-cases (is_elsewhere seen t)) [
          | inl e ↦ rw e rest
          | inr e ↦ rw e (
              Runs-bind now (dependency_runs t) _ s s _ (holds s t) _ [] []
                (Runs-dependency_runs t s) (past_tests (holds s t) (is_too_small seen t)))
        ])
      where
        past_tests :
            (runs small : Bool)
            → Runs now
                (if not runs
                  then next
                  else if small
                  then next
                  else (accept_task slave_id seen t >>= λ info. pure (some info)))
                s
                (if runs && not small then some (task_info_for t slave_id ps) else o)
                []
                (if runs && not small then accepted seen t s else s')
        past_tests false small = rest
        past_tests true true = rest
        past_tests true false =
            Runs-bind now (accept_task slave_id seen t) _ s (accepted seen t s) (accepted seen t s)
              (task_info_for t slave_id ps) _ [] [] (Runs-accept_task t ps s parsed)
              (Runs-pure now (some (task_info_for t slave_id ps)) (accepted seen t s))

    -- The inner loop takes the first task that fits.
    pub Runs-match_task :
        (requested : List Task) (s : State)
        → AllParse requested
        → Runs now
            (match_task slave_id seen requested)
            s
            (found_info slave_id (first_fit (runs_in s) seen requested))
            []
            (after_found seen (first_fit (runs_in s) seen requested) s)
    unfolding match_task first_fit
    Runs-match_task [] s h = Runs-pure now none s
    Runs-match_task (t ∷ ts) s ((ps, parsed), h) =
        let rest : Option Task = first_fit (runs_in s) seen ts in
        subst
          (λ (r : Option TaskInfo × State).
            Runs now (match_task slave_id seen (t ∷ ts)) s r.0 [] r.1)
          (chosen (fits (runs_in s) seen t) rest ∙ refl)
          (Runs-match_one t ps (match_task slave_id seen ts) s (after_found seen rest s)
            (found_info slave_id rest) parsed (Runs-match_task ts s h))
      where
        own : own_parameters t ≡ ps
        own = ap (λ o. elim o [ some qs ↦ qs | none ↦ [] ]) parsed

        chosen :
            (b : Bool) (rest : Option Task)
            → ◌≡◌ {A = Option TaskInfo × State}
                (
                  if b then some (task_info_for t slave_id ps) else found_info slave_id rest,
                  if b then accepted seen t s else after_found seen rest s,
                )
                (
                  found_info slave_id (if b then some t else rest),
                  after_found seen (if b then some t else rest) s,
                )
        chosen true rest =
            ap (λ qs. (some (task_info_for t slave_id qs), accepted seen t s)) (sym own)
        chosen false rest = refl
