-- ===== src/Scheduler/Container.antt =====
-- What `offers` of src/scheduler/scheduler_impl.rs builds from a task: the command, the container
-- and the resources.
use torc_scheduler.Mesos.{
  Command, MountedVolume, Mode, Network, Parameter, scalar, TaskInfo, task_id,
}
use torc_scheduler.Prelude.{
  ℕ, String, Bool, true, false, ◌||◌, Option, none, some, List, [], ◌∷◌, map, is_empty, concat,
  split_nonempty, ◌==◌, if◌then◌else◌,
}
use torc_scheduler.Records.{Task, Volume}
use Prim.Native.Nat.{compare, Ordering}

abbrev is_char : ℕ → ℕ → Bool
is_char c d = elim (compare c d) [ Ordering.eq ↦ true | _ ↦ false ]

abbrev pub is_space : ℕ → Bool
is_space c = is_char c b' '

abbrev pub is_parameter_separator : ℕ → Bool
is_parameter_separator c = is_char c b'-' || is_char c b'=' || is_char c b' '

unfoldable pub command_for : Task → Command
command_for task = record {
  shell = false;
  arguments = if is_empty task.arguments then [] else split_nonempty is_space task.arguments;
}

abbrev pub network_for : String → Option Network
network_for network_type =
    if network_type == "host"
    then some Network.host
    else if network_type == "none"
    then some Network.no_network
    else none

-- A network that is neither "host" nor "none" is passed on as a docker parameter.
unfoldable pub all_parameters : Task → String
all_parameters task =
    if task.network_type == "host"
    then task.parameters
    else if task.network_type == "none"
    then task.parameters
    else concat (task.parameters ∷ " --net=" ∷ task.network_type ∷ [])

-- The loop that takes the pieces two at a time: `elmts[count]` panics past the end, which is `none`
-- here, and the test at the end of a round lets the loop end only after a whole pair.
unfoldable pub pair_up : List String → Option (List Parameter)
pair_up [] = none
pair_up (key ∷ []) = none
pair_up (key ∷ value ∷ []) = some (record { key = key; value = value } ∷ [])
pair_up (key ∷ value ∷ piece ∷ pieces) = elim (pair_up (piece ∷ pieces)) [
  | none ↦ none
  | some rest ↦ some (record { key = key; value = value } ∷ rest)
]

unfoldable pub parameters_for : String → Option (List Parameter)
unfolding pair_up
parameters_for parameters =
    if is_empty parameters
    then some []
    else pair_up (split_nonempty is_parameter_separator parameters)

abbrev pub mounted : Volume → MountedVolume
mounted v = record {
  host_path = v.host_path;
  container_path = v.container_path;
  mode = if v.read_only_mode then Mode.ro else Mode.rw;
}

-- Setting an empty list of volumes or leaving it unset is the same message.
unfoldable pub task_info_for : Task → String → List Parameter → TaskInfo
unfolding command_for
task_info_for task slave_id parameters = record {
  name = task.name;
  id = task_id task.name;
  slave_id = slave_id;
  command = command_for task;
  container = record {
    docker = record {
      image = task.image;
      privileged = task.privileged;
      network = network_for task.network_type;
      parameters = parameters;
    };
    volumes = map mounted task.volumes;
  };
  resources = scalar "mem" "*" task.memory ∷ scalar "cpus" "*" task.cpu ∷ [];
}
