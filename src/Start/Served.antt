-- ===== src/Start/Served.antt =====
-- The start of the program and the first round of its health checker together: src/main.rs,
-- src/state/state.rs and src/health/run_health_checker.rs.
use torc_scheduler.Client.StateManager.{StateManager, TaskConfig, NodeConfig}
use torc_scheduler.Config.{YamlLibrary}
use torc_scheduler.Config.Settings.{DnsEntry, settings, unwrap_or}
use torc_scheduler.Prelude.{String, Option, List}
use torc_scheduler.Prelude.Int.{ℤ}
use torc_scheduler.NodeList
use torc_scheduler.Start.{CommandLine, own_ip}
use torc_scheduler.TaskList

module _ (lib : YamlLibrary) (now : ℤ) (files : String → Option String) (uuid : String)
    (args : CommandLine) (config : lib.Yaml) (nodes : List NodeConfig) (tasks : List TaskConfig)
    (entries : List DnsEntry) where
  -- The manager that `main` makes of its arguments.
  abbrev pub manager : StateManager
  manager =
      settings lib config args.master_ip (own_ip args.master_ip (unwrap_or "" args.my_ip)) uuid
