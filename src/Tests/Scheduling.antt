-- ===== src/Tests/Scheduling.antt =====
-- The callbacks of mesos.
use torc_scheduler.Client.Answerless.{NoAnswer}
use torc_scheduler.Client.{World, Outcome, ok, call, yield, deliver, call_or_panic}
use torc_scheduler.Client.Quiet.{Runs}
use torc_scheduler.Client.StateManager
use torc_scheduler.Client.StateManager.{request_list_requested_tasks}
use torc_scheduler.Collaborator.{Effect}
use torc_scheduler.Machine.F64.{lt_f64}
use torc_scheduler.HashMap.{get, values, modify}
use torc_scheduler.Mesos.{Parameter, TaskInfo, TaskStatus, MesosTaskState}
use torc_scheduler.NodeList
use torc_scheduler.Prelude.{
  ◌%◌, String, ◌≡◌, refl, Option, none, some, List, [], ◌∷◌, ◌++◌, length, filter_by, split,
  split_nonempty, ◌==◌, if◌then◌else◌,
}
use torc_scheduler.Prelude.Int.{pos}
use torc_scheduler.Records.{Task, same_state}
use torc_scheduler.Scheduler.Container.{
  all_parameters, parameters_for, pair_up, is_parameter_separator, task_info_for,
}
use torc_scheduler.Scheduler.Offers.{
  Seen, nothing_seen, offers, match_offers, match_task, match_one, accept_task, note_node,
  read_offer, send_answers, dependency_runs,
}
use torc_scheduler.Scheduler.Offers.Answered.{Dealt, launches, offers_answered_once}
use torc_scheduler.Scheduler.Offers.Fits.{Chosen, match_task-Chosen}
use torc_scheduler.Scheduler.Parameters.{network_parameter, network_panics}
use torc_scheduler.Scheduler.Update.{update}
use torc_scheduler.Scheduler.Update.Outcome.{ended, update-ended}
use torc_scheduler.Server.{State}
use torc_scheduler.Server.Handlers
use torc_scheduler.Server.Serve.{dispatch}
use torc_scheduler.TaskList
use torc_scheduler.Tests.Data.{
  no_json, web, wanted, cluster, requesting, offer, second_offer, world,
}

abbrev after_offers : World
after_offers = (offers (offer ∷ second_offer ∷ []) (world (some requesting))).1

offers_end : offers (offer ∷ second_offer ∷ []) (world (some requesting)) ≡ (ok tt, after_offers)
unfolding offers match_offers match_task match_one accept_task note_node read_offer send_answers
    dependency_runs StateManager.request_list_requested_tasks StateManager.request_is_node_active
    StateManager.send_update_node StateManager.request_task_state
    StateManager.send_update_task_state StateManager.send_update_task_node_name call yield deliver
    call_or_panic dispatch lt_f64 Handlers.handle_ping Handlers.handle_get_requested_tasks
    Handlers.handle_get_is_node_active Handlers.handle_update_task_state Handlers.handle_update_node
    Handlers.handle_update_task_node_name TaskList.get_tasks_with_state TaskList.set_task_state
    NodeList.is_node_active NodeList.update_node TaskList.set_task_node_name filter_by values modify
    get same_state all_parameters parameters_for split_nonempty
offers_end = refl

offers_answered_once_example :
    (infos : List TaskInfo) × (ls : List String) × (rs : List String) × (others : List Effect)
    × Dealt ("o1" ∷ "o2" ∷ []) ls rs
    × (length infos ≡ length ls)
    × NoAnswer others
    × (after_offers.trace ≡ others ++ launches infos ls rs)
offers_answered_once_example =
    offers_answered_once (offer ∷ second_offer ∷ []) (world (some requesting)) after_offers
      offers_end

abbrev own_parameters : List Parameter
own_parameters = record { key = "ip"; value = "10.1.0.7" } ∷ []

abbrev all_own_parameters : List Parameter
all_own_parameters =
    record { key = "ip"; value = "10.1.0.7" } ∷ record { key = "net"; value = "torc" } ∷ []

own_parameters_parse : parameters_for web.parameters ≡ some own_parameters
unfolding parameters_for pair_up split_nonempty split filter_by
own_parameters_parse = refl

network_parameter_example : parameters_for (all_parameters web) ≡ some all_own_parameters
network_parameter_example =
    network_parameter web own_parameters refl refl refl (refl, (refl, (refl, (refl, tt))))
      own_parameters_parse

-- A network whose name has a dash in it.
abbrev dashed : Task
dashed = record web { network_type = "my-net" }

two_pieces : length (split_nonempty is_parameter_separator "my-net") % 2 ≡ 0
unfolding split_nonempty split filter_by
two_pieces = refl

network_panics_example : parameters_for (all_parameters dashed) ≡ none
network_panics_example =
    network_panics dashed own_parameters refl refl two_pieces own_parameters_parse

abbrev three_pieces : List String
three_pieces = "ip" ∷ "10.1.0.7" ∷ "net" ∷ []

-- What is read from the first offer.
abbrev first_seen : Seen
first_seen = read_offer offer nothing_seen

abbrev after_match : Outcome (Option TaskInfo) × World
after_match = match_task "s1" first_seen (wanted ∷ []) (world (some requesting))

abbrev wanted_info : TaskInfo
wanted_info = task_info_for wanted "s1" all_own_parameters

wanted_is_matched :
    match_task "s1" first_seen (wanted ∷ []) (world (some requesting))
    ≡ (ok (some wanted_info), after_match.1)
unfolding match_task match_one accept_task read_offer dependency_runs
    StateManager.send_update_task_state StateManager.send_update_task_node_name call yield deliver
    dispatch lt_f64 Handlers.handle_ping Handlers.handle_update_task_state TaskList.set_task_state
    modify get all_parameters parameters_for pair_up split_nonempty split filter_by
wanted_is_matched = refl

match_task-Chosen_example :
    (t : Task) × Chosen "s1" first_seen (wanted ∷ []) wanted_info t (world (some requesting))
match_task-Chosen_example =
    match_task-Chosen "s1" first_seen (wanted ∷ []) (world (some requesting)) after_match.1
      wanted_info wanted_is_matched

-- A task that may run anywhere, and two offers that are large enough for it.
abbrev anywhere : Task
anywhere = record wanted { node_name = "" }

abbrev anywhere_requested : State
anywhere_requested = record cluster { task_list = ("monitor", anywhere) ∷ [] }

abbrev anywhere_info : TaskInfo
anywhere_info = task_info_for anywhere "s1" all_own_parameters

abbrev listed : World
listed = (request_list_requested_tasks (world (some anywhere_requested))).1

abbrev launched : World
launched = (offers (offer ∷ second_offer ∷ []) (world (some anywhere_requested))).1

abbrev monitor_failed : TaskStatus
monitor_failed = record {
  task_id = "monitor";
  state = MesosTaskState.task_failed;
  text = none;
  slave_id = "s1";
}

update-ended_example :
    (s' : State) × Runs (pos 1000) (update no_json monitor_failed) cluster tt [] s'
    × ((m : String)
        → TaskList.get_task m s'.task_list ≡ (
            if "monitor" == m
            then ended "torc" (pos 1000) (TaskList.get_task m cluster.task_list)
            else TaskList.get_task m cluster.task_list))
    × (s'.node_list ≡ cluster.node_list)
update-ended_example = update-ended no_json (pos 1000) cluster monitor_failed tt
