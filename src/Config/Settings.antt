-- ===== src/Config/Settings.antt =====
-- What src/state/state.rs and src/health/run_health_checker.rs read from the configuration at the
-- start.
use torc_scheduler.Background.{CleanConfig}
use torc_scheduler.Client.StateManager.{StateManager, NodeConfig}
use torc_scheduler.Config.{
  YamlLibrary, read_string, read_string_replace_variable, read_int, with_master_ip,
}
use torc_scheduler.Machine.I64.{to_bits}
use torc_scheduler.Prelude.{ℕ, String, Option, none, some, List, [], ◌∷◌, concat}
use torc_scheduler.Prelude.Int.{pos}
use torc_scheduler.Prelude.Panic.{◌>>=◌, pure}

pub record DnsEntry : Type 0 where
  pub name : String
  pub ip : String

abbrev pub unwrap_or : {A : Type 0} → A → Option A → A
unwrap_or missing none = missing
unwrap_or missing (some a) = a

module _ (lib : YamlLibrary) where
  open lib use {Yaml, load_from_str, index, as_str, as_i64}

  -- `files path` is the text of the file, `none` if it cannot be opened or read. `config[0]` panics
  -- for a text without documents.
  abbrev first_document : List Yaml → Option Yaml
  first_document [] = none
  first_document (config ∷ rest) = some config

  unfoldable pub read_config_file : (String → Option String) → String → Option Yaml
  read_config_file files config_file = do
    content ← files config_file
    documents ← load_from_str content
    first_document documents

  -- The fields of `StateManager`; `uuid` is the text of the random identifier.
  abbrev pub settings : Yaml → String → String → String → StateManager
  settings config master_ip my_ip uuid =
      let my_name = unwrap_or "torc-controller" (as_str (index config "name")) in
      let agent = index config "network-agent" in
      record {
        master_ip = master_ip;
        my_name = my_name;
        my_ip = my_ip;
        my_framework_id = concat (my_name ∷ "-" ∷ uuid ∷ []);
        ipmi_proxy = unwrap_or "undefined" (as_str (index config "ipmiproxy"));
        network_agent_type = unwrap_or "undefined" (as_str (index agent "type"));
        network_agent_connection =
            with_master_ip master_ip (unwrap_or "undefined" (as_str (index agent "connection")));
      }

  -- The arguments of `send_add_node` for an entry of `nodes`, in the order in which they are read.
  unfoldable pub read_node : String → Yaml → Option NodeConfig
  unfolding read_string read_string_replace_variable read_int
  read_node master_ip node = do
    name ← read_string lib node "name"
    ip ← read_string_replace_variable lib master_ip node "ip"
    external_ip ← read_string_replace_variable lib master_ip node "external_ip"
    management_ip ← read_string lib node "management_ip"
    port_id ← read_int lib node "port" (pos 0)
    node_type ← read_string lib node "type"
    pure (record {
      name = name;
      ip = ip;
      external_ip = external_ip;
      management_ip = management_ip;
      port_id = port_id;
      node_type = node_type;
    })

  -- `as_i64().unwrap() as u64`, the seconds between two rounds of a loop.
  unfoldable pub read_wait_time : Yaml → Option ℕ
  unfolding to_bits
  read_wait_time section = do
    seconds ← as_i64 (index section "poll_interval_in_seconds")
    pure (to_bits seconds)

  unfoldable pub read_sync_config : Yaml → Option ℕ
  unfolding read_wait_time
  read_sync_config config = read_wait_time (index config "statesync")

  unfoldable pub read_clean_config : Yaml → Option (ℕ × CleanConfig)
  unfolding read_wait_time
  read_clean_config config = do
    wait_time ← read_wait_time (index config "stateclean")
    timeout ← as_i64 (index (index config "stateclean") "timeout_in_seconds")
    restart_delay ← as_i64 (index (index config "stateclean") "restart_delay_in_seconds")
    pure (wait_time, record { timeout = timeout; restart_delay = restart_delay })

  unfoldable pub read_dns_entry : String → Yaml → Option DnsEntry
  unfolding read_string read_string_replace_variable
  read_dns_entry master_ip addon = do
    name ← read_string lib addon "name"
    ip ← read_string_replace_variable lib master_ip addon "ip"
    pure (record { name = name; ip = ip })
