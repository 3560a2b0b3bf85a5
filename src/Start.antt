-- ===== src/Start.antt =====
-- How the program starts: `StateManager::new` and `load_node_list` of src/state/state.rs,
-- src/scheduler/run_scheduler.rs and src/main.rs.
pub mod Loaded
pub mod Served
pub mod Stopped
use torc_scheduler.Client.{ok, Exec, pure, unwrap, ◌>>=◌, ◌>>◌, emit, for_each}
use torc_scheduler.Client.StateManager.{StateManager, send_add_node, send_ping}
use torc_scheduler.Collaborator.NetworkAgent.{reset_fib}
use torc_scheduler.Config.{YamlLibrary}
use torc_scheduler.Config.Settings.{
  read_config_file, settings, read_node, read_sync_config, read_clean_config, unwrap_or,
}
use torc_scheduler.Machine.F64.{F64, zero_f64}
use torc_scheduler.Prelude.{
  String, Bool, true, Option, none, some, List, [], ◌∷◌, concat, is_empty, if◌then◌else◌,
}
use torc_scheduler.Server.{start_state}

-- `start_serving`: the serving thread waits for its first message.
unfoldable pub start_serving : String → String → Exec (Unit {0})
start_serving master_ip my_name w =
    (ok tt, record w { server = some (start_state master_ip my_name) })

module _ (lib : YamlLibrary) where
  open lib use {Yaml, index, as_vec}

  unfoldable pub add_configured : StateManager → Yaml → Exec (Unit {0})
  add_configured sm node = do c ← unwrap (read_node lib sm.master_ip node); send_add_node c

  unfoldable pub load_node_list : StateManager → Yaml → Exec (Unit {0})
  unfolding add_configured
  load_node_list sm config = do
    nodes ← unwrap (as_vec (index config "nodes"))
    for_each (add_configured sm) nodes

  -- `StateManager::new`. The syncing and the cleaning thread, which read their part of the
  -- configuration before they are started, are other threads from then on.
  unfoldable pub new_state_manager :
      (String → Option String) → String → String → String → String → Exec StateManager
  unfolding start_serving
  new_state_manager files uuid master_ip my_ip config_file = do
    config ← unwrap (read_config_file lib files config_file)
    let sm = settings lib config master_ip my_ip uuid
    start_serving sm.master_ip sm.my_name
    load_node_list sm config
    wait_time ← unwrap (read_sync_config lib config)
    clean_config ← unwrap (read_clean_config lib config)
    emit (reset_fib sm.network_agent_type sm.network_agent_connection)
    pure sm

-- What clap finds of the command line; MASTER_IP is required.
pub record CommandLine : Type 0 where
  pub master_ip : String
  pub my_ip : Option String
  pub config : Option String

abbrev pub own_ip : String → String → String
own_ip master_ip my_ip = if is_empty my_ip then master_ip else my_ip

-- `main` up to the start of the three threads, which are other threads from then on.
unfoldable pub main :
    YamlLibrary → (String → Option String) → String → CommandLine → Exec StateManager
main lib files uuid args =
    new_state_manager lib files uuid args.master_ip
      (own_ip args.master_ip (unwrap_or "" args.my_ip))
      (unwrap_or "./config/config.yml" args.config)

-- `SchedulerConf` of the crate mesos, with the identifier of the framework as its text.
pub record SchedulerConf : Type 0 where
  pub master_url : String
  pub user : String
  pub name : String
  pub framework_timeout : F64
  pub implicit_acknowledgements : Bool
  pub framework_id : Option String

abbrev pub scheduler_conf : StateManager → SchedulerConf
scheduler_conf sm = record {
  master_url = concat ("http://" ∷ sm.master_ip ∷ ":5050" ∷ []);
  user = "root";
  name = sm.my_name;
  framework_timeout = zero_f64;
  implicit_acknowledgements = true;
  framework_id = some sm.my_framework_id;
}

-- The configuration with which the crate's loop over the callbacks is entered.
unfoldable pub run_scheduler : StateManager → Exec SchedulerConf
run_scheduler sm = do send_ping; pure (scheduler_conf sm)
