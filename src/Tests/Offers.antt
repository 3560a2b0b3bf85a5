-- ===== src/Tests/Offers.antt =====
-- The callback for offers, against its plan.
use torc_scheduler.Client.{World, ok, ◌>>◌}
use torc_scheduler.Client.Quiet.{IsQuiet}
use torc_scheduler.Collaborator.Consul.{register_running_task}
use torc_scheduler.HashMap.{get, values}
use torc_scheduler.Machine.F64.{lt_f64}
use torc_scheduler.Mesos.{Parameter, TaskInfo}
use torc_scheduler.NodeList
use torc_scheduler.Prelude.{
  String, ◌≡◌, refl, inl, inr, some, List, [], ◌∷◌, ◌++◌, Member, filter_by, split_nonempty, split,
}
use torc_scheduler.Prelude.Int.{pos}
use torc_scheduler.Records.{Task, TaskState, same_state}
use torc_scheduler.Scheduler.Container.{all_parameters, parameters_for, pair_up}
use torc_scheduler.Scheduler.Offers.{nothing_seen, read_offer, offers}
use torc_scheduler.Scheduler.Offers.Answered.{launches}
use torc_scheduler.Scheduler.Offers.Matched.{plan_for}
use torc_scheduler.Scheduler.Offers.Outcome.{offers_lem}
use torc_scheduler.Scheduler.Offers.Plan.{
  Placement, plan, first_fit, infos, accepted_ids, declined_ids, task_after_plan, node_after_plan,
}
use torc_scheduler.Scheduler.Offers.Planned.{info_for}
use torc_scheduler.Scheduler.Offers.Total.{AllParse}
use torc_scheduler.Scheduler.Started.{ComesUp, requested_task_gets_running}
use torc_scheduler.Scheduler.Update.{update}
use torc_scheduler.Server.{State}
use torc_scheduler.Server.Validity.{IsValid}
use torc_scheduler.TaskList
use torc_scheduler.Tests.Data.{
  leaf, wanted, requesting, offer, second_offer, quiet_world, quiet_world-IsQuiet,
}
use torc_scheduler.Tests.Reports.{json, monitor_runs, monitor-Inspected}

abbrev wanted_parameters : List Parameter
wanted_parameters =
    record { key = "ip"; value = "10.1.0.7" } ∷ record { key = "net"; value = "torc" } ∷ []

pub requested_parse :
    AllParse (TaskList.get_tasks_with_state TaskState.requested requesting.task_list)
unfolding TaskList.get_tasks_with_state filter_by values same_state all_parameters parameters_for
    pair_up split_nonempty split
requested_parse = ((wanted_parameters, refl), tt)

pub requesting_names : IsValid requesting
unfolding get
requesting_names = record { tasks = (refl, refl, (refl, refl, tt)); nodes = (refl, refl, tt) }

abbrev pub plan_of_both : List Placement
plan_of_both = plan_for requesting (offer ∷ second_offer ∷ [])

offers_lem_example :
    (w' : World) × (s' : State) × (offers (offer ∷ second_offer ∷ []) (quiet_world requesting)
      ≡ (ok tt, w'))
    × (w'.trace
        ≡ []
          ++ launches
              (infos "s1" plan_of_both)
              (accepted_ids plan_of_both)
              (declined_ids plan_of_both))
    × IsQuiet (pos 1000) s' w'
    × (s'.master_ip ≡ "10.0.0.1")
    × ((n : String)
        → TaskList.get_task n s'.task_list
          ≡ task_after_plan plan_of_both n (TaskList.get_task n requesting.task_list))
    × ((n : String)
        → NodeList.get_node n s'.node_list
          ≡ node_after_plan (pos 1000) plan_of_both n (NodeList.get_node n requesting.node_list))
offers_lem_example =
    offers_lem (pos 1000) requesting offer (second_offer ∷ []) (quiet_world requesting)
      (quiet_world-IsQuiet requesting) (λ n. refl) requesting_names requested_parse

abbrev pub first_placement : Placement
first_placement = record { offer = offer; seen = read_offer offer nothing_seen; task = some wanted }

pub first_placement_is_planned : Member first_placement plan_of_both
unfolding plan first_fit read_offer TaskList.get_task_state TaskList.get_tasks_with_state filter_by
    values get same_state lt_f64
first_placement_is_planned = inl refl

leaf_is_listed : NodeList.get_node "leaf1" requesting.node_list ≡ some leaf
unfolding NodeList.get_node get
leaf_is_listed = refl

monitor-ComesUp :
    ComesUp json (pos 1000) requesting monitor_runs "[{..}]" "e5f6" "leaf1" "" "10.0.1.1"
monitor-ComesUp = record {
  state = refl;
  text_is = refl;
  inspected = monitor-Inspected;
  addressed = inr (refl, (leaf, leaf_is_listed, refl));
  id_given = refl;
  ip_given = refl;
  slave_given = refl;
}

requested_task_gets_running_example :
    (w' : World) × (s' : State) × (u : Task) × (started : List TaskInfo) × ((offers
            (offer ∷ second_offer ∷ [])
          >> update json monitor_runs)
        (quiet_world requesting)
      ≡ (ok tt, w'))
    × IsQuiet (pos 1000) s' w'
    × (w'.trace
        ≡ ([] ++ launches started (accepted_ids plan_of_both) (declined_ids plan_of_both))
          ++ register_running_task "10.0.0.1" u)
    × Member (info_for "s1" wanted) started
    × (TaskList.get_task "monitor" s'.task_list ≡ some u)
    × (u.state ≡ TaskState.running)
    × (u.id ≡ "e5f6")
    × (u.ip ≡ "10.0.1.1")
    × (u.slave_id ≡ "s1")
requested_task_gets_running_example =
    requested_task_gets_running json (pos 1000) requesting offer (second_offer ∷ [])
      (quiet_world requesting) first_placement wanted monitor_runs "[{..}]" "e5f6" "leaf1" ""
      "10.0.1.1" (quiet_world-IsQuiet requesting) (λ n. refl) requesting_names requested_parse
      first_placement_is_planned refl refl monitor-ComesUp
