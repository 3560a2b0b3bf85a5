-- ===== src/Scheduler/Update.antt =====
-- `update` of src/scheduler/scheduler_impl.rs, with `handle_inspect_data` of src/utils/docker.rs.
pub mod Outcome
pub mod Running
pub mod Again
pub mod Fatal
use torc_scheduler.Client.{World, Exec, pure, unwrap, panic, ◌>>=◌, ◌>>◌}
use torc_scheduler.Client.StateManager.{
  request_node, send_update_task_info, send_update_task_state, request_is_restartable_task,
  send_restart_task, send_remove_task_by_name,
}
use torc_scheduler.Mesos.{MesosTaskState, TaskStatus}
use torc_scheduler.Prelude.{
  String, Bool, Option, none, some, List, [], ◌∷◌, is_empty, if◌then◌else◌,
}
use torc_scheduler.Records.{TaskState, Node}

-- `rustc_serialize::json::Json`, as the program uses it. `from_str` is `none` for a text that is no
-- JSON, `as_array` and `as_string` for a value of another kind, `find_path` for a missing key.
pub record JsonLibrary : Type 1 where
  pub Json : Type 0
  pub from_str : String → Option Json
  pub as_array : Json → Option (List Json)
  pub as_string : Json → Option String
  pub find_path : Json → List String → Option Json

abbrev pub head : {A : Type 0} → List A → Option A
head [] = none
head (x ∷ xs) = some x

-- A task that ended is restarted or forgotten.
unfoldable pub task_ended : String → Exec (Unit {0})
task_ended task_name = do
  restartable ← request_is_restartable_task task_name
  if restartable then send_restart_task task_name else send_remove_task_by_name task_name

module _ (lib : JsonLibrary) where
  open lib use {Json, from_str, as_array, as_string, find_path}

  -- `json.as_array().unwrap()[0]`
  abbrev pub first_of_array : Json → Exec Json
  first_of_array json = do array ← unwrap (as_array json); unwrap (head array)

  -- `json.as_array().unwrap()[0].find_path(path).unwrap().as_string().unwrap()`
  unfoldable pub string_at : Json → List String → Exec String
  string_at json path = do
    first ← first_of_array json
    found ← unwrap (find_path first path)
    unwrap (as_string found)

  abbrev pub ip_or_empty : Option Json → Exec String
  ip_or_empty none = pure ""
  ip_or_empty (some ip) = unwrap (as_string ip)

  abbrev ip_of_node : Option Node → String
  ip_of_node none = ""
  ip_of_node (some node) = node.ip

  -- A task without an address of its own has that of its node.
  unfoldable pub own_or_node_ip : String → String → Exec String
  own_or_node_ip ip node_name =
      if is_empty ip then (do node ← request_node node_name; pure (ip_of_node node)) else pure ip

  unfoldable pub handle_inspect_data : String → String → String → Exec (Unit {0})
  unfolding string_at own_or_node_ip
  handle_inspect_data task_name inspect_data slave_id = do
    json ← unwrap (from_str inspect_data)
    id ← string_at json ("Id" ∷ [])
    node_name ← string_at json ("Config" ∷ "Hostname" ∷ [])
    first ← first_of_array json
    given ←
        ip_or_empty (find_path first ("NetworkSettings" ∷ "Networks" ∷ "torc" ∷ "IPAddress" ∷ []))
    ip ← own_or_node_ip given node_name
    send_update_task_info task_name id ip slave_id

  unfoldable pub task_started : TaskStatus → Exec (Unit {0})
  unfolding handle_inspect_data
  task_started status = do
    docker_inspect ← unwrap status.text
    handle_inspect_data status.task_id docker_inspect status.slave_id
    send_update_task_state status.task_id TaskState.running

  abbrev pub react : MesosTaskState → TaskStatus → Exec (Unit {0})
  react MesosTaskState.task_running status = task_started status
  react MesosTaskState.task_finished status = task_ended status.task_id
  react MesosTaskState.task_killed status = task_ended status.task_id
  react MesosTaskState.task_failed status = task_ended status.task_id
  react MesosTaskState.task_lost status = task_ended status.task_id
  react MesosTaskState.other status = pure tt

  unfoldable pub update : TaskStatus → Exec (Unit {0})
  unfolding task_started task_ended
  update status = react status.state status
