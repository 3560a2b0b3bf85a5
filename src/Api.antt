-- ===== src/Api.antt =====
-- The handlers of src/api/run_api.rs. Each but that of the ping has a mutex of its own around a copy of
-- the StateManager, here by the name of its variable; the HTTP server is that of the crate iron. The
-- query of a request is what it gives, the text after '?' or `none`.
pub mod Answers
pub mod Groups
pub mod Deleted
pub mod Shut
pub mod Routes
pub mod Reading
use torc_scheduler.Client.{Exec, pure, unwrap, ◌>>=◌, ◌>>◌, when, for_each}
use torc_scheduler.Client.Lock.{locked}
use torc_scheduler.Client.StateManager.{
  StateManager, request_list_nodes, request_node, request_list_running_tasks,
  request_task_name_by_id, send_kill_task_by_name, send_announce_task, send_start_task,
}
use torc_scheduler.Config.{YamlLibrary, read_task}
use torc_scheduler.Collaborator.Commands.{
  Command, startup_node, shutdown_node, configure_network, shutdown_network,
}
use torc_scheduler.Prelude.{
  ℕ, zero, suc, String, Bool, true, false, not, Option, none, some, List, filter_by, is_empty,
  starts_with, ◌==◌, if◌then◌else◌,
}
use torc_scheduler.Records.{Task, Node}

-- The JSON functions of rustc_serialize that the handlers use. `decode_task` is `none` for a text
-- that is no task.
pub record JsonCodec : Type 0 where
  pub encode_nodes : List Node → String
  pub encode_tasks : List Task → String
  pub encode_result : String → String
  pub encode_command : Command → String
  pub decode_task : String → Option Task

-- A response with status 200. `any_origin` is the header Access-Control-Allow-Origin.
pub record Response : Type 0 where
  pub is_json : Bool
  pub body : String
  pub any_origin : Bool

-- `text.split_at(n).1`
skip : ℕ → String → String
skip zero s = s
skip (suc n) String.[] = ""
skip (suc n) (String.◌∷◌ c s) = skip n s

abbrev query_text : Option String → String
query_text none = ""
query_text (some q) = q

-- What follows the key in a query that begins with it, "" otherwise; `n` is the key's length.
unfoldable pub argument_of : String → ℕ → Option String → String
unfolding skip
argument_of key n query =
    if is_empty (query_text query)
    then ""
    else if starts_with (query_text query) key
    then skip n (query_text query)
    else ""

abbrev pub json_response : String → Response
json_response body = record { is_json = true; body = body; any_origin = false }

-- `if !name.is_empty() { action }`
abbrev pub unless_empty : String → Exec (Unit {0}) → Exec (Unit {0})
unless_empty name action = if is_empty name then pure tt else action

module _ (codec : JsonCodec) (sm : StateManager) where
  abbrev pub done : Response
  done = json_response (codec.encode_result "done")

  unfoldable pub handle_ping : Exec Response
  handle_ping = pure (record { is_json = false; body = "pong"; any_origin = false })

  unfoldable pub handle_nodes : Exec Response
  handle_nodes = do
    nodes ← locked "nodes_state_manager" request_list_nodes
    pure (json_response (codec.encode_nodes nodes))

  abbrev pub start_found : Option Node → Exec (Unit {0})
  start_found none = pure tt
  start_found (some node) = startup_node codec.encode_command sm.ipmi_proxy node.management_ip

  unfoldable pub handle_node_startup : Option String → Exec Response
  handle_node_startup query = do
    unless_empty (argument_of "name=" 5 query) (
        locked "node_startup_state_manager"
          (do node ← request_node (argument_of "name=" 5 query); start_found node))
    pure done

  abbrev pub stop_found : Option Node → Exec (Unit {0})
  stop_found none = pure tt
  stop_found (some node) = shutdown_node codec.encode_command sm.ipmi_proxy node.management_ip

  unfoldable pub handle_node_shutdown : Option String → Exec Response
  handle_node_shutdown query = do
    unless_empty (argument_of "name=" 5 query) (
        locked "node_shutdown_state_manager"
          (do node ← request_node (argument_of "name=" 5 query); stop_found node))
    pure done

  unfoldable pub handle_services_metered : Exec Response
  handle_services_metered = do
    tasks ← locked "services_metered_state_manager" request_list_running_tasks
    pure (json_response (codec.encode_tasks (filter_by (λ task. task.is_metered) tasks)))

  unfoldable pub handle_services_running : Exec Response
  handle_services_running = do
    tasks ← locked "services_running_state_manager" request_list_running_tasks
    pure (json_response (codec.encode_tasks (filter_by (λ task. not task.is_job) tasks)))

  abbrev pub name_for : String → Exec String
  name_for id =
      if is_empty id then pure "" else locked "service_state_manager" (request_task_name_by_id id)

  unfoldable pub handle_service : Option String → Exec Response
  handle_service query = do
    result ← name_for (argument_of "id=" 3 query)
    pure (record (json_response (codec.encode_result result)) { any_origin = true })

  unfoldable pub handle_calico_configure : Exec Response
  handle_calico_configure = do
    nodes ← locked "calico_configure_state_manager" request_list_nodes
    configure_network codec.encode_command nodes
    pure done

  unfoldable pub handle_calico_shutdown : Exec Response
  handle_calico_shutdown = do
    nodes ← locked "calico_shutdown_state_manager" request_list_nodes
    shutdown_network codec.encode_command nodes
    pure done

  unfoldable pub handle_service_delete : Option String → Exec Response
  handle_service_delete query = do
    unless_empty (argument_of "name=" 5 query) (
        locked "service_delete_state_manager"
          (send_kill_task_by_name (argument_of "name=" 5 query)))
    pure done

  -- `body` is `none` if the body of the request cannot be read as a text.
  unfoldable pub handle_task_announce : Option String → Exec Response
  handle_task_announce body = do
    text ← unwrap body
    decoded ← unwrap (codec.decode_task text)
    locked "handle_announce_state_manager" (send_announce_task sm decoded)
    pure done

module _ (codec : JsonCodec) (lib : YamlLibrary) (sm : StateManager) where
  open lib use {Yaml, index, as_str, as_vec}

  abbrev pub start_service : Yaml → Exec (Unit {0})
  start_service service = do
    task ← locked "start_service_group_state_manager" (unwrap (read_task lib sm.master_ip service))
    locked "start_service_group_state_manager" (send_start_task sm task false)

  abbrev pub start_group : String → Yaml → Exec (Unit {0})
  start_group name group = do
    group_name ← unwrap (as_str (index group "name"))
    when (group_name == name)
        do services ← unwrap (as_vec (index group "services")); for_each start_service services

  -- `get_yaml` of the locked StateManager, before the groups are looked through.
  abbrev pub start_groups : Yaml → String → Exec (Unit {0})
  start_groups yaml name = do
    config ← locked "start_service_group_state_manager" (pure yaml)
    groups ← unwrap (as_vec (index (index config "api") "service-groups"))
    for_each (start_group name) groups

  unfoldable pub handle_start_service_group : Yaml → Option String → Exec Response
  handle_start_service_group config query = do
    unless_empty (argument_of "name=" 5 query) (start_groups config (argument_of "name=" 5 query))
    pure (json_response (codec.encode_result "done"))
