-- ===== src/Health.antt =====
-- src/health/run_health_checker.rs: the thread that keeps the system services of the configuration
-- running.
pub mod Kept
pub mod Prepared
pub mod Each
use torc_scheduler.Client.{Exec, pure, unwrap, ◌>>=◌, ◌>>◌, call, emit, for_each}
use torc_scheduler.Client.StateManager.{
  StateManager, TaskConfig, request_task_state, send_start_task, request_list_nodes, send_ping,
}
use torc_scheduler.Config.{YamlLibrary, read_task}
use torc_scheduler.Config.Settings.{DnsEntry, read_wait_time, read_dns_entry}
use torc_scheduler.Collaborator.Consul.{register_torc_controller, register_unmanaged_service}
use torc_scheduler.Prelude.{
  String, Bool, true, not, List, [], ◌∷◌, ◌++◌, map, concat, filter_by, ◌==◌,
}
use torc_scheduler.Prelude.Panic.{for_all}
use torc_scheduler.Records.{TaskState, Node, Sla}

-- The copy of a service for one node.
abbrev pub for_node : TaskConfig → Node → TaskConfig
for_node task node = record task {
  node_name = node.name;
  name = concat (task.name ∷ "-" ∷ node.name ∷ []);
}

unfoldable pub expand_by : TaskConfig → Sla → Exec (List TaskConfig)
expand_by task Sla.no_sla = pure (task ∷ [])
expand_by task Sla.singleton_each_node = do
  nodes ← request_list_nodes
  pure (map (for_node task) nodes)
expand_by task Sla.singleton_each_slave = do
  nodes ← request_list_nodes
  pure (map (for_node task) (filter_by (λ node. node.node_type == "slave") nodes))

module _ (lib : YamlLibrary) (sm : StateManager) where
  open lib use {Yaml, index, as_vec}

  -- The loop over `system_services`.
  unfoldable pub expand_services : List Yaml → Exec (List TaskConfig)
  unfolding expand_by
  expand_services [] = pure []
  expand_services (service ∷ rest) = do
    task ← unwrap (read_task lib sm.master_ip service)
    tasks ← expand_by task task.sla
    more ← expand_services rest
    pure (tasks ++ more)

  -- What comes before the loop of `run_health_checker`: its tasks and entries.
  unfoldable pub prepare : Yaml → Exec (List TaskConfig × List DnsEntry)
  unfolding expand_services
  prepare config = do
    send_ping
    wait_time ← unwrap (read_wait_time lib (index config "healthcheck"))
    services ← unwrap (as_vec (index (index config "healthcheck") "system_services"))
    tasks ← expand_services services
    addons ← unwrap (as_vec (index config "dns-addons"))
    entries ← unwrap (for_all (read_dns_entry lib sm.master_ip) addons)
    pure (tasks, entries)

-- A service that is not running is started, as a system service.
abbrev pub start_if_down : StateManager → TaskConfig → TaskState → Exec (Unit {0})
start_if_down sm task TaskState.not_running = send_start_task sm task true
start_if_down sm task _ = pure tt

unfoldable pub check_task : StateManager → TaskConfig → Exec (Unit {0})
check_task sm task = do s ← request_task_state task.name; start_if_down sm task s

abbrev register_entry : StateManager → DnsEntry → Exec (Unit {0})
register_entry sm entry = emit (register_unmanaged_service sm.master_ip entry.name entry.ip)

-- One round of the loop.
unfoldable pub health_round : StateManager → List TaskConfig → List DnsEntry → Exec (Unit {0})
health_round sm tasks entries = do
  for_each (check_task sm) tasks
  emit (register_torc_controller sm.master_ip sm.my_name sm.my_ip)
  for_each (register_entry sm) entries

-- `run_health_checker` up to the end of its first round.
unfoldable pub run_first_round : (lib : YamlLibrary) → StateManager → lib.Yaml → Exec (Unit {0})
run_first_round lib sm config = do
  (tasks, entries) ← prepare lib sm config
  health_round sm tasks entries
