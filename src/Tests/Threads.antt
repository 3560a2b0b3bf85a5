-- ===== src/Tests/Threads.antt =====
-- The threads that talk to the serving thread.
use torc_scheduler.Background.{clean_round, is_overdue}
use torc_scheduler.Background.Clean.Revived.{revived_node_is_dropped}
use torc_scheduler.Background.Overflow.{is_overdue_wraps}
use torc_scheduler.Machine.I64.{add_i64}
use torc_scheduler.Machine.F64.{default_memory, default_cpu}
use torc_scheduler.NodeList.{as_active, as_inactive}
use torc_scheduler.Config.Settings.{DnsEntry}
use torc_scheduler.Health.{health_round}
use torc_scheduler.Health.Kept.{kept, registered, health_round_lem}
use torc_scheduler.Background.Clean.{deleted_routes}
use torc_scheduler.Background.Clean.Outcome.{cleaned_task, cleaned_node, clean_round_lem}
use torc_scheduler.Client.{◌>>◌}
use torc_scheduler.Client.Announce.{
  stored_ip, with_task, new_route, old_route, send_announce_task_lem, announce_same_ip_loses_route,
}
use torc_scheduler.Client.Dead.{Dies}
use torc_scheduler.Client.Fatal.{send_announce_task-Dies}
use torc_scheduler.Client.Quiet.{Runs}
use torc_scheduler.Client.StateManager.{TaskConfig, send_announce_task, send_update_node}
use torc_scheduler.Collaborator.{fboss_add_route, fboss_delete_route}
use torc_scheduler.HashMap.{get, values}
use torc_scheduler.NodeList
use torc_scheduler.Prelude.{String, ◌≡◌, refl, none, some, [], ◌∷◌, ◌++◌, true, false, arith}
use torc_scheduler.Prelude.Int.{pos}
use torc_scheduler.Records.{Task, Node, Sla}
use torc_scheduler.Server.{State}
use torc_scheduler.Server.Refinement.{Shows}
use torc_scheduler.Server.Validity.{IsValid}
use torc_scheduler.TaskList
use torc_scheduler.Collaborator.NetworkAgent.Routes
use torc_scheduler.Tests.Data.{
  sm, web, leaf, cluster, clean_config, quiet_world, quiet_world-IsQuiet,
}

cluster_keyed : IsValid cluster
unfolding get
cluster_keyed = record { tasks = (refl, refl, (refl, refl, tt)); nodes = (refl, refl, tt) }

clean_round_lem_example :
    (s' : State) × Runs
      (pos 1000)
      (clean_round sm clean_config)
      cluster
      tt
      (deleted_routes sm clean_config (pos 1000) cluster)
      s'
    × Shows
        (λ n. cleaned_task sm clean_config (pos 1000) (TaskList.get_task n cluster.task_list))
        (λ n. cleaned_node sm clean_config (pos 1000) (NodeList.get_node n cluster.node_list))
        (some s')
clean_round_lem_example = clean_round_lem sm clean_config (pos 1000) cluster cluster_keyed

-- The task is heard of again under a new id.
abbrev web_again : Task
web_again = record web { id = "e5f6" }

new_id_is_unknown : TaskList.get_task_name_by_id "e5f6" cluster.task_list ≡ ""
unfolding TaskList.get_task_name_by_id values
new_id_is_unknown = refl

leaf_is_stored : NodeList.get_node "leaf1" cluster.node_list ≡ some leaf
unfolding NodeList.get_node get
leaf_is_stored = refl

web_is_stored : TaskList.get_task "web" cluster.task_list ≡ some web
unfolding TaskList.get_task get
web_is_stored = refl

send_announce_task_lem_example :
    Runs
      (pos 1000)
      (send_announce_task sm web_again)
      cluster
      tt
      (new_route sm (pos 1000) web_again leaf ++ old_route sm (pos 1000) (stored_ip "web" cluster))
      (with_task web_again cluster)
send_announce_task_lem_example =
    send_announce_task_lem sm (pos 1000) web_again leaf cluster new_id_is_unknown leaf_is_stored

announce_same_ip_loses_route_example :
    Runs
      (pos 1000)
      (send_announce_task sm web_again)
      cluster
      tt
      (fboss_add_route "10.0.0.9:8080" "10.1.0.7/32" "10.2.0.1"
        ∷ fboss_delete_route "10.0.0.9:8080" "10.1.0.7/32"
        ∷ [])
      (with_task web_again cluster)
announce_same_ip_loses_route_example =
    announce_same_ip_loses_route sm (pos 1000) Routes.Agent.fboss web_again web leaf cluster refl
      new_id_is_unknown leaf_is_stored web_is_stored refl refl refl refl

-- A node that has been silent since the start and is offered again.
abbrev lost : Node
lost = record leaf { active = false; last_seen = pos 10 }

abbrev losing : State
losing = record cluster { node_list = ("leaf1", lost) ∷ [] }

losing_keyed : IsValid losing
unfolding get
losing_keyed = record { tasks = (refl, refl, (refl, refl, tt)); nodes = (refl, refl, tt) }

lost_is_stored : NodeList.get_node "leaf1" losing.node_list ≡ some lost
unfolding NodeList.get_node get
lost_is_stored = refl

lost_is_overdue : is_overdue (pos 10) (pos 60) (pos 1000) ≡ true
unfolding add_i64
lost_is_overdue = refl

revived_node_is_dropped_example :
    (s' : State) × Runs
      (pos 1000)
      (send_update_node "leaf1" "switch" "leaf" "s1" >> clean_round sm clean_config)
      losing
      tt
      (deleted_routes sm clean_config (pos 1000) losing)
      s'
    × (NodeList.get_node "leaf1" s'.node_list
        ≡ some (as_inactive (as_active "switch" "leaf" "s1" lost)))
revived_node_is_dropped_example =
    revived_node_is_dropped sm clean_config (pos 1000) losing lost "leaf1" "switch" "leaf" "s1"
      losing_keyed lost_is_stored lost_is_overdue

is_overdue_wraps_example : is_overdue (pos 1000) (pos 0x7fff_ffff_ffff_ffff) (pos 1000) ≡ true
is_overdue_wraps_example =
    is_overdue_wraps 1000 0x7fff_ffff_ffff_ffff 1000 (omega arith) (omega arith) (omega arith)

abbrev dns : TaskConfig
dns = record {
  name = "dns";
  image = "dnsmasq";
  node_name = "";
  node_type = "master";
  node_function = "";
  dependent_service = "";
  arguments = "";
  parameters = "";
  memory = default_memory;
  cpu = default_cpu;
  volumes = [];
  privileged = false;
  sla = Sla.no_sla;
  is_metered = false;
  is_job = false;
  network_type = "host";
}

abbrev master_entry : DnsEntry
master_entry = record { name = "master"; ip = "10.0.0.1" }

health_round_lem_example :
    (s' : State) × Runs
      (pos 1000)
      (health_round sm (dns ∷ []) (master_entry ∷ []))
      cluster
      tt
      (registered sm (pos 1000) (master_entry ∷ []))
      s'
    × ((n : String)
        → TaskList.get_task n s'.task_list
          ≡ kept sm (pos 1000) (dns ∷ []) n (TaskList.get_task n cluster.task_list))
    × (s'.node_list ≡ cluster.node_list)
health_round_lem_example = health_round_lem sm (pos 1000) (dns ∷ []) (master_entry ∷ []) cluster

-- A task on a node that nobody has added.
abbrev astray : Task
astray = record web_again { node_name = "spine1" }

spine_is_unknown : NodeList.get_node "spine1" cluster.node_list ≡ none
unfolding NodeList.get_node get
spine_is_unknown = refl

send_announce_task-Dies_example : Dies (send_announce_task sm astray) (quiet_world cluster)
send_announce_task-Dies_example =
    send_announce_task-Dies sm (pos 1000) cluster astray (quiet_world cluster)
      (quiet_world-IsQuiet cluster) new_id_is_unknown spine_is_unknown
