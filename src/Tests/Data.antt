-- ===== src/Tests/Data.antt =====
-- A small cluster for the tests: one switch and one server, with tasks in several states.
use torc_scheduler.Api.{JsonCodec}
use torc_scheduler.Background.{CleanConfig}
use torc_scheduler.Client.Quiet.{IsQuiet}
use torc_scheduler.Client.{World, Environment, Event, served}
use torc_scheduler.Client.StateManager.{StateManager}
use torc_scheduler.Collaborator.Commands.{Command}
use torc_scheduler.Machine.F64.{default_memory, default_cpu}
use torc_scheduler.Mesos.{Offer}
use torc_scheduler.Prelude.{
  none, String, concat, refl, ℕ, zero, suc, true, false, Option, some, List, [], ◌∷◌,
}
use torc_scheduler.Prelude.Int.{pos}
use torc_scheduler.Records.{Task, TaskState, Node, Sla}
use torc_scheduler.Scheduler.Update.{JsonLibrary}
use torc_scheduler.Server.{State, StateRequestMsg}

abbrev pub sm : StateManager
sm = record {
  master_ip = "10.0.0.1";
  my_name = "torc";
  my_ip = "10.0.0.1";
  my_framework_id = "framework";
  ipmi_proxy = "";
  network_agent_type = "fboss";
  network_agent_connection = "10.0.0.9:8080";
}

abbrev pub web : Task
web = record {
  name = "web";
  controller = "swarm";
  id = "a1b2";
  image = "nginx";
  node_name = "leaf1";
  node_type = "";
  node_function = "";
  dependent_service = "";
  arguments = "";
  parameters = "--ip 10.1.0.7";
  memory = default_memory;
  cpu = default_cpu;
  volumes = [];
  privileged = false;
  sla = Sla.no_sla;
  is_metered = false;
  is_system_service = false;
  is_job = false;
  network_type = "torc";
  ip = "10.1.0.7";
  slave_id = "";
  state = TaskState.running;
  last_update = pos 100;
}

-- An own service that the program itself keeps running.
abbrev pub monitor : Task
monitor = record web {
  name = "monitor";
  controller = "torc";
  id = "c3d4";
  is_system_service = true;
  ip = "";
}

-- The same service, waiting for an offer.
abbrev pub wanted : Task
wanted = record monitor { state = TaskState.requested }

abbrev pub leaf : Node
leaf = record {
  name = "leaf1";
  ip = "10.0.1.1";
  external_ip = "10.2.0.1";
  management_ip = "10.3.0.1";
  node_type = "switch";
  node_function = "leaf";
  active = true;
  slave_id = "s1";
  port_id = pos 4;
  last_seen = pos 950;
}

abbrev pub cluster : State
cluster = record {
  initialized = true;
  master_ip = "10.0.0.1";
  my_name = "torc";
  task_list = ("web", web) ∷ ("monitor", monitor) ∷ [];
  node_list = ("leaf1", leaf) ∷ [];
}

abbrev pub requesting : State
requesting = record cluster { task_list = ("web", web) ∷ ("monitor", wanted) ∷ [] }

abbrev pub offer : Offer
offer = record {
  id = "o1";
  slave_id = "s1";
  attributes = record { name = "machine-name"; text = "leaf1" } ∷ [];
  resources =
      record { name = "cpus"; scalar = default_memory }
      ∷ record { name = "mem"; scalar = default_memory }
      ∷ [];
}

-- An offer without resources: those of the offer before it count.
abbrev pub second_offer : Offer
second_offer = record offer {
  id = "o2";
  attributes = record { name = "machine-name"; text = "leaf2" } ∷ [];
  resources = [];
}

abbrev pub clean_config : CleanConfig
clean_config = record { timeout = pos 60; restart_delay = pos 30 }

abbrev only_first : ℕ → List Event
only_first zero = served StateRequestMsg.ping ∷ []
only_first (suc n) = []

-- Another thread pings once; every call of another system succeeds.
abbrev pub busy : Environment
busy = record { events = only_first; accepts = λ _. true }

abbrev pub world : Option State → World
world s = record {
  server = s;
  now = pos 1000;
  has_client = true;
  poisoned = [];
  trace = [];
  turn = 0;
  env = busy;
}

abbrev pub quiet : Environment
quiet = record { events = λ _. []; accepts = λ _. true }

-- The same with no other thread.
abbrev pub quiet_world : State → World
quiet_world s = record (world (some s)) { env = quiet }

pub quiet_world-IsQuiet : (s : State) → IsQuiet (pos 1000) s (quiet_world s)
quiet_world-IsQuiet s = record {
  events = λ n. refl;
  time = refl;
  serving = refl;
  unpoisoned = refl;
}

abbrev pub plain_command : Command → String
plain_command c = concat (c.cmd ∷ ";" ∷ c.env ∷ [])

abbrev pub codec : JsonCodec
codec = record {
  encode_nodes = λ nodes. "nodes";
  encode_tasks = λ tasks. "tasks";
  encode_result = λ result. result;
  encode_command = plain_command;
  decode_task = λ body. some web;
}

abbrev pub no_json : JsonLibrary
no_json = record {
  Json = String;
  from_str = λ s. some s;
  as_array = λ j. none;
  as_string = λ j. some j;
  find_path = λ j path. none;
}
