-- ===== src/Tests/Yaml.antt =====
-- A small YAML library, whose only document is a configuration of the program.
use torc_scheduler.Client.StateManager.{TaskConfig, NodeConfig}
use torc_scheduler.Config.{YamlLibrary}
use torc_scheduler.Config.Settings.{DnsEntry}
use torc_scheduler.Config.Values.{YamlValues}
use torc_scheduler.HashMap.{HashMap, get}
use torc_scheduler.Machine.F64.{F64, default_memory, default_cpu}
use torc_scheduler.Prelude.{
  String, ◌≡◌, refl, Bool, true, false, Option, none, some, List, [], ◌∷◌, ◌==◌, if◌then◌else◌,
  arith,
}
use torc_scheduler.Prelude.Int.{ℤ, pos}
use torc_scheduler.Records.{Sla}

-- A value; arrays and hashes are chains of cells.
pub data Yaml : Type 0 where
  bad end_array end_hash : Yaml
  str : String → Yaml
  boolean : Bool → Yaml
  int : ℤ → Yaml
  real : F64 → Yaml
  item : Yaml → Yaml → Yaml
  field : String → Yaml → Yaml → Yaml

abbrev pub array : List Yaml → Yaml
array [] = Yaml.end_array
array (v ∷ vs) = Yaml.item v (array vs)

abbrev pub hash : HashMap Yaml → Yaml
hash [] = Yaml.end_hash
hash ((k, v) ∷ m) = Yaml.field k v (hash m)

abbrev index : Yaml → String → Yaml
index (Yaml.field j v rest) k = let other = index rest k in if j == k then v else other
index _ k = Yaml.bad

abbrev add_item : Yaml → Option (List Yaml) → Option (List Yaml)
add_item v none = none
add_item v (some vs) = some (v ∷ vs)

abbrev as_vec : Yaml → Option (List Yaml)
as_vec Yaml.end_array = some []
as_vec (Yaml.item v rest) = add_item v (as_vec rest)
as_vec _ = none

abbrev is_badvalue : Yaml → Bool
is_badvalue Yaml.bad = true
is_badvalue _ = false

abbrev as_str : Yaml → Option String
as_str (Yaml.str s) = some s
as_str _ = none

abbrev as_bool : Yaml → Option Bool
as_bool (Yaml.boolean b) = some b
as_bool _ = none

abbrev as_i64 : Yaml → Option ℤ
as_i64 (Yaml.int n) = some n
as_i64 _ = none

abbrev as_f64 : Yaml → Option F64
as_f64 (Yaml.real x) = some x
as_f64 _ = none

abbrev pub leaf_entry : Yaml
leaf_entry = hash (
    ("name", Yaml.str "leaf1")
    ∷ ("ip", Yaml.str "$MASTER_IP")
    ∷ ("management_ip", Yaml.str "10.3.0.1")
    ∷ ("port", Yaml.int (pos 4))
    ∷ ("type", Yaml.str "switch")
    ∷ [])

abbrev pub monitor_entry : Yaml
monitor_entry = hash (
    ("name", Yaml.str "monitor")
    ∷ ("image_name", Yaml.str "collectd")
    ∷ ("sla", Yaml.str "singleton_each_node")
    ∷ ("network_type", Yaml.str "host")
    ∷ [])

abbrev pub ntp_entry : Yaml
ntp_entry = hash (("name", Yaml.str "ntp") ∷ ("ip", Yaml.str "10.0.0.3") ∷ [])

abbrev pub group_entry : Yaml
group_entry = hash (("name", Yaml.str "metrics") ∷ ("services", array (monitor_entry ∷ [])) ∷ [])

abbrev every : ℤ → List (String × Yaml) → Yaml
every seconds more = hash (("poll_interval_in_seconds", Yaml.int seconds) ∷ more)

abbrev pub config : Yaml
config = hash (
    ("name", Yaml.str "torc")
    ∷ ("nodes", array (leaf_entry ∷ []))
    ∷ ("statesync", every (pos 5) [])
    ∷ (
      "stateclean",
      every (pos 7) (
          ("timeout_in_seconds", Yaml.int (pos 60))
          ∷ ("restart_delay_in_seconds", Yaml.int (pos 30))
          ∷ []),
    )
    ∷ ("healthcheck", every (pos 9) (("system_services", array (monitor_entry ∷ [])) ∷ []))
    ∷ ("dns-addons", array (ntp_entry ∷ []))
    ∷ ("api", hash (("service-groups", array (group_entry ∷ [])) ∷ []))
    ∷ [])

abbrev pub yaml : YamlLibrary
yaml = record {
  Yaml = Yaml;
  load_from_str = λ text. some (config ∷ []);
  index = index;
  is_badvalue = is_badvalue;
  as_str = as_str;
  as_bool = as_bool;
  as_i64 = as_i64;
  as_f64 = as_f64;
  as_vec = as_vec;
}

abbrev pub monitor_config : TaskConfig
monitor_config = record {
  name = "monitor";
  image = "collectd";
  node_name = "";
  node_type = "";
  node_function = "";
  dependent_service = "";
  arguments = "";
  parameters = "";
  memory = default_memory;
  cpu = default_cpu;
  volumes = [];
  privileged = false;
  sla = Sla.singleton_each_node;
  is_metered = false;
  is_job = false;
  network_type = "host";
}

abbrev pub leaf_config : NodeConfig
leaf_config = record {
  name = "leaf1";
  ip = "10.0.0.1";
  external_ip = "";
  management_ip = "10.3.0.1";
  port_id = pos 4;
  node_type = "switch";
}

abbrev pub ntp : DnsEntry
ntp = record { name = "ntp"; ip = "10.0.0.3" }

as_vec-array : (vs : List Yaml) → as_vec (array vs) ≡ some vs
as_vec-array [] = refl
as_vec-array (v ∷ vs) = rw (as_vec-array vs) refl

array_present : (vs : List Yaml) → is_badvalue (array vs) ≡ false
array_present [] = refl
array_present (v ∷ vs) = refl

index-hash : (k : String) (v : Yaml) (m : HashMap Yaml) → get k m ≡ some v → index (hash m) k ≡ v
unfolding get
index-hash k v [] e = cc
index-hash k v ((j, w) ∷ m) e = ground (arith, index-hash k v m)

pub values : YamlValues yaml
values = record {
  string = Yaml.str;
  boolean = Yaml.boolean;
  real = Yaml.real;
  array = array;
  hash = hash;
  as_str-string = λ s. refl;
  as_bool-boolean = λ b. refl;
  as_f64-real = λ x finite. refl;
  as_vec-array = as_vec-array;
  string_present = λ s. refl;
  boolean_present = λ b. refl;
  real_present = λ x. refl;
  array_present = λ vs. array_present vs;
  index-hash = λ k v m once e. index-hash k v m e;
}
