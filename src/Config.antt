-- ===== src/Config.antt =====
-- src/utils/config.rs: what the program reads from its YAML configuration. The library yaml_rust is a
-- parameter. Reading panics on a value of another kind, which is `none` here.
pub mod Settings
pub mod Written
pub mod Values
use torc_scheduler.Client.StateManager.{TaskConfig}
use torc_scheduler.Machine.F64.{F64, default_memory, default_cpu}
use torc_scheduler.Prelude.{
  String, Bool, true, false, Option, none, some, List, [], ◌∷◌, ◌==◌, if◌then◌else◌,
}
use torc_scheduler.Prelude.Int.{ℤ}
use torc_scheduler.Prelude.Panic.{◌>>=◌, pure, for_all}
use torc_scheduler.Prelude.Replacing.{replace}
use torc_scheduler.Records.{Sla, Volume}

-- `load_from_str` is `none` for a text that is no YAML, and each `as_` function for a value of
-- another kind. `index` is `value[key]`, a bad value for a missing key.
pub record YamlLibrary : Type 1 where
  pub Yaml : Type 0
  pub load_from_str : String → Option (List Yaml)
  pub index : Yaml → String → Yaml
  pub is_badvalue : Yaml → Bool
  pub as_str : Yaml → Option String
  pub as_bool : Yaml → Option Bool
  pub as_i64 : Yaml → Option ℤ
  pub as_f64 : Yaml → Option F64
  pub as_vec : Yaml → Option (List Yaml)

-- `str::replace(text, "$MASTER_IP", master_ip)`
abbrev pub with_master_ip : String → String → String
with_master_ip master_ip text = replace "$MASTER_IP" master_ip text

abbrev pub sla_of : String → Sla
sla_of text =
    if text == "singleton_each_node"
    then Sla.singleton_each_node
    else if text == "singleton_each_slave"
    then Sla.singleton_each_slave
    else Sla.no_sla

module _ (lib : YamlLibrary) where
  open lib use {Yaml, index, is_badvalue, as_str, as_bool, as_i64, as_f64, as_vec}

  -- A value that may be left out.
  abbrev pub optional : {A : Type 0} → (Yaml → Option A) → A → Yaml → Option A
  optional read missing value = if is_badvalue value then some missing else read value

  unfoldable pub read_string : Yaml → String → Option String
  read_string element key = optional as_str "" (index element key)

  unfoldable pub read_string_replace_variable : String → Yaml → String → Option String
  read_string_replace_variable master_ip element key = do
    text ← optional as_str "" (index element key)
    pure (with_master_ip master_ip text)

  unfoldable pub read_bool : Yaml → String → Option Bool
  read_bool element key = optional as_bool false (index element key)

  unfoldable pub read_float : Yaml → String → F64 → Option F64
  read_float element key missing = optional as_f64 missing (index element key)

  unfoldable pub read_int : Yaml → String → ℤ → Option ℤ
  read_int element key missing = optional as_i64 missing (index element key)

  unfoldable pub read_volume : Yaml → Option Volume
  read_volume volume = do
    host_path ← as_str (index volume "host_path")
    container_path ← as_str (index volume "container_path")
    read_only_mode ← as_bool (index volume "read_only_mode")
    pure (record {
      host_path = host_path;
      container_path = container_path;
      read_only_mode = read_only_mode;
    })

  unfoldable pub read_volumes_for_service : Yaml → Option (List Volume)
  unfolding read_volume for_all
  read_volumes_for_service service =
      optional (λ value. as_vec value >>= for_all read_volume) [] (index service "volumes")

  unfoldable pub read_sla : Yaml → Option Sla
  read_sla service =
      optional (λ value. do text ← as_str value; pure (sla_of text)) Sla.no_sla
        (index service "sla")

  -- The fields are read in the order in which the source writes them.
  unfoldable pub read_task : String → Yaml → Option TaskConfig
  unfolding read_string read_string_replace_variable read_bool read_float read_volumes_for_service
      read_sla
  read_task master_ip service = do
    name ← as_str (index service "name")
    image ← as_str (index service "image_name")
    node_name ← read_string service "node_name"
    node_type ← read_string service "node_type"
    node_function ← read_string service "node_function"
    dependent_service ← read_string service "dependent_service"
    arguments ← read_string_replace_variable master_ip service "arguments"
    parameters ← read_string_replace_variable master_ip service "parameters"
    memory ← read_float service "memory" default_memory
    cpu ← read_float service "cpu" default_cpu
    volumes ← read_volumes_for_service service
    privileged ← read_bool service "privileged"
    sla ← read_sla service
    is_metered ← read_bool service "is_metered"
    is_job ← read_bool service "is_job"
    network_type ← as_str (index service "network_type")
    pure (record {
      name = name;
      image = image;
      node_name = node_name;
      node_type = node_type;
      node_function = node_function;
      dependent_service = dependent_service;
      arguments = arguments;
      parameters = parameters;
      memory = memory;
      cpu = cpu;
      volumes = volumes;
      privileged = privileged;
      sla = sla;
      is_metered = is_metered;
      is_job = is_job;
      network_type = network_type;
    })
