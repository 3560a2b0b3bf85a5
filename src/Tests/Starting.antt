-- ===== src/Tests/Starting.antt =====
-- The start of the program and the threads that read the configuration.
use torc_scheduler.Api.{json_response, argument_of, handle_start_service_group}
use torc_scheduler.Api.Groups.{chosen, handle_start_service_group_lem}
use torc_scheduler.Api.Shut.{IsBadGroup, bad_group_shuts_route}
use torc_scheduler.Client.{World, ok, panicked}
use torc_scheduler.Client.Quiet.{IsQuiet, Runs}
use torc_scheduler.Client.StateManager.{StateManager, TaskConfig}
use torc_scheduler.Config.{
  read_string, read_string_replace_variable, read_bool, read_float, read_int,
  read_volumes_for_service, read_sla, read_task,
}
use torc_scheduler.Config.Settings.{
  settings, read_config_file, read_node, read_wait_time, read_sync_config, read_clean_config,
  read_dns_entry,
}
use torc_scheduler.Config.Written.{write_task, read_task-write_task}
use torc_scheduler.Client.Stored.{stored}
use torc_scheduler.Client.StateManager.{new_task}
use torc_scheduler.Collaborator.NetworkAgent.{reset_fib}
use torc_scheduler.Health.{run_first_round}
use torc_scheduler.Health.Kept.{kept, registered}
use torc_scheduler.Health.Prepared.{expanded, IsChecked, run_first_round_lem}
use torc_scheduler.NodeList
use torc_scheduler.Server.{State}
use torc_scheduler.Server.Refinement.{Shows}
use torc_scheduler.Server.Validity
use torc_scheduler.Start.{CommandLine, new_state_manager}
use torc_scheduler.Start.Loaded.{loaded, IsReadable, IsAlone, new_state_manager_lem}
use torc_scheduler.TaskList
use torc_scheduler.Machine.I64.{to_bits}
use torc_scheduler.Prelude.{String, ◌≡◌, refl, false, Option, none, some, [], ◌∷◌, ◌++◌, is_empty}
use torc_scheduler.Prelude.Int.{pos}
use torc_scheduler.Prelude.Replacing.{replace}
use torc_scheduler.Tests.Yaml.{
  Yaml, array, hash, yaml, values, config, leaf_entry, monitor_entry, leaf_config, monitor_config,
  ntp, ntp_entry, group_entry,
}
use torc_scheduler.Tests.Data.{sm, cluster, codec, quiet_world, quiet_world-IsQuiet}

leaf_is_read : read_node yaml "10.0.0.1" leaf_entry ≡ some leaf_config
unfolding read_node read_string read_string_replace_variable read_int replace
leaf_is_read = refl

monitor_is_read : read_task yaml "10.0.0.1" monitor_entry ≡ some monitor_config
unfolding read_task read_string read_string_replace_variable read_bool read_float
    read_volumes_for_service read_sla replace
monitor_is_read = refl

-- A service with a variable in its parameters.
abbrev collector : TaskConfig
collector = record monitor_config { arguments = "-v"; parameters = "--env HOST=10.0.0.1:80" }

read_task-write_task_example :
    read_task yaml "10.0.0.1" (write_task yaml values collector "-v" "--env HOST=$MASTER_IP:80")
    ≡ some collector
read_task-write_task_example =
    read_task-write_task yaml values "10.0.0.1" collector ("-v" ∷ []) ("--env HOST=" ∷ ":80" ∷ [])
      refl refl ((refl, (refl, tt)), tt)
      (
        (refl, (refl, (refl, (refl, (refl, (refl, (refl, (refl, (refl, (refl, (refl, tt))))))))))),
        ((refl, (refl, (refl, tt))), tt),
      )
      refl refl

abbrev pub files : String → Option String
files path = some "name: torc"

pub config-IsReadable :
    IsReadable yaml (pos 1000) files "config.yml" "10.0.0.1" config (leaf_config ∷ [])
unfolding read_config_file read_sync_config read_clean_config read_wait_time to_bits
config-IsReadable = record {
  nodes = leaf_entry ∷ [];
  wait_time = 5;
  clean = (7, record { timeout = pos 60; restart_delay = pos 30 });
  parsed = refl;
  listed = refl;
  read = (leaf_is_read, tt);
  syncs = refl;
  cleans = refl;
}

-- Before the serving thread is started there is no state.
pub empty_world-IsAlone : IsAlone yaml (pos 1000) (record (quiet_world cluster) { server = none })
empty_world-IsAlone = record { events = λ n. refl; time = refl; unpoisoned = refl }

abbrev started : StateManager
started = settings yaml config "10.0.0.1" "10.0.0.2" "uuid"

new_state_manager_lem_example :
    (s' : State) × (w' : World) × (new_state_manager yaml files "uuid" "10.0.0.1" "10.0.0.2"
        "config.yml"
        (record (quiet_world cluster) { server = none })
      ≡ (ok started, w'))
    × (w'.trace ≡ [] ++ reset_fib started.network_agent_type started.network_agent_connection)
    × IsQuiet (pos 1000) s' w'
    × Validity.IsValid s'
    × Shows (λ n. none) (λ n. loaded (pos 1000) (leaf_config ∷ []) n none) (some s')
new_state_manager_lem_example =
    new_state_manager_lem yaml (pos 1000) files "uuid" "10.0.0.1" "10.0.0.2" "config.yml" config
      (leaf_config ∷ []) config-IsReadable (record (quiet_world cluster) { server = none })
      empty_world-IsAlone

-- It is checked by any manager with that master.
abbrev at_master : String → StateManager → StateManager
at_master name m = record m { master_ip = "10.0.0.1"; my_name = name }

config-IsChecked :
    (m : StateManager) (name : String)
    → IsChecked yaml (at_master name m) (pos 1000) config (monitor_config ∷ []) (ntp ∷ [])
unfolding read_wait_time to_bits read_dns_entry read_string read_string_replace_variable replace
config-IsChecked m name = record {
  wait_time = 9;
  services = monitor_entry ∷ [];
  addons = ntp_entry ∷ [];
  waits = refl;
  listed = refl;
  read = (monitor_is_read, tt);
  added = refl;
  read_addons = (refl, tt);
}

run_first_round_lem_example :
    (s' : State) × Runs
      (pos 1000)
      (run_first_round yaml sm config)
      cluster
      tt
      (registered sm (pos 1000) (ntp ∷ []))
      s'
    × ((n : String)
        → TaskList.get_task n s'.task_list
          ≡ kept sm
              (pos 1000)
              (expanded (NodeList.get_nodes cluster.node_list) (monitor_config ∷ []))
              n
              (TaskList.get_task n cluster.task_list))
    × (s'.node_list ≡ cluster.node_list)
run_first_round_lem_example =
    run_first_round_lem yaml sm (pos 1000) config (monitor_config ∷ []) (ntp ∷ [])
      (config-IsChecked sm "torc") cluster

group_is_given : is_empty (argument_of "name=" 5 (some "name=metrics")) ≡ false
unfolding argument_of
group_is_given = refl

handle_start_service_group_lem_example :
    (s' : State) × Runs
      (pos 1000)
      (handle_start_service_group codec yaml sm config (some "name=metrics"))
      cluster
      (json_response "done")
      []
      s'
    × ((n : String)
        → TaskList.get_task n s'.task_list
          ≡ stored
              (λ (c : TaskConfig). c.name)
              (λ c. new_task sm c false (pos 1000))
              (chosen
                (argument_of "name=" 5 (some "name=metrics"))
                (("metrics", monitor_config ∷ []) ∷ []))
              n
              (TaskList.get_task n cluster.task_list))
    × (s'.node_list ≡ cluster.node_list)
handle_start_service_group_lem_example =
    handle_start_service_group_lem codec yaml sm (pos 1000) config (some "name=metrics")
      (group_entry ∷ []) (("metrics", monitor_config ∷ []) ∷ []) cluster group_is_given refl
      ((monitor_entry ∷ [], refl, refl, (monitor_is_read, tt)), tt)

abbrev pub command_line : CommandLine
command_line = record { master_ip = "10.0.0.1"; my_ip = none; config = some "config.yml" }

abbrev pub of_command_line : StateManager
of_command_line = settings yaml config "10.0.0.1" "10.0.0.1" "uuid"

-- A group whose service has no name, after one that can be read.
abbrev broken_entry : Yaml
broken_entry = hash (("name", Yaml.str "broken") ∷ ("services", array (hash [] ∷ [])) ∷ [])

abbrev with_broken : Yaml
with_broken =
    hash (("api", hash (("service-groups", array (group_entry ∷ broken_entry ∷ [])) ∷ [])) ∷ [])

broken-IsBadGroup : IsBadGroup codec yaml sm "broken" broken_entry
unfolding read_task
broken-IsBadGroup = record {
  service = hash [];
  services = [];
  named = refl;
  listed = refl;
  unreadable = refl;
}

bad_group_shuts_route_example :
    (w1 : World) × (handle_start_service_group codec yaml sm with_broken
        (some "name=broken")
        (quiet_world cluster)
      ≡ (panicked, w1))
    × (w1.server ≡ some cluster)
    × (handle_start_service_group codec yaml sm with_broken (some "name=metrics") w1
        ≡ (panicked, w1))
unfolding argument_of
bad_group_shuts_route_example =
    bad_group_shuts_route codec yaml sm (pos 1000) cluster with_broken (some "name=broken")
      (some "name=metrics") (group_entry ∷ []) [] broken_entry (quiet_world cluster)
      (quiet_world-IsQuiet cluster) refl refl refl (("metrics", refl, refl), tt) broken-IsBadGroup
