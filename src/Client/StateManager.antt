-- ===== src/Client/StateManager.antt =====
-- The public methods of `StateManager` in src/state/state.rs, which every thread calls. Each sends
-- one message (`send_announce_task` several) and waits for the answer.
use torc_scheduler.Client.{ok, Exec, pure, ◌>>=◌, ◌>>◌, call, read_clock, emit, try_call}
use torc_scheduler.Collaborator.{kill}
use torc_scheduler.Collaborator.NetworkAgent.{add_route, delete_route}
use torc_scheduler.Machine.F64.{F64}
use torc_scheduler.Prelude.{
  String, Bool, false, Option, none, some, List, [], is_empty, if◌then◌else◌,
}
use torc_scheduler.Prelude.Int.{ℤ}
use torc_scheduler.Records.{Task, TaskState, Node, Volume, Sla}
use torc_scheduler.Server.{StateRequestMsg, StateResponseMsg}

-- The fields that the threads share, without the configuration, which a function that reads it takes
-- as an argument.
pub record StateManager : Type 0 where
  pub master_ip : String
  pub my_name : String
  pub my_ip : String
  pub my_framework_id : String
  pub ipmi_proxy : String
  pub network_agent_type : String
  pub network_agent_connection : String

-- A task as the configuration describes it (`utils::Task`).
pub record TaskConfig : Type 0 where
  pub name : String
  pub image : String
  pub node_name : String
  pub node_type : String
  pub node_function : String
  pub dependent_service : String
  pub arguments : String
  pub parameters : String
  pub memory : F64
  pub cpu : F64
  pub volumes : List Volume
  pub privileged : Bool
  pub sla : Sla
  pub is_metered : Bool
  pub is_job : Bool
  pub network_type : String

-- `receiver.recv().unwrap()` with the answer dropped
abbrev tell : StateRequestMsg → Exec (Unit {0})
tell msg = do call msg; pure tt

unfoldable pub send_ping : Exec (Unit {0})
send_ping = tell StateRequestMsg.ping

abbrev pub to_task_state : StateResponseMsg → TaskState
to_task_state (StateResponseMsg.task_state s) = s
to_task_state _ = TaskState.not_running

unfoldable pub request_task_state : String → Exec TaskState
request_task_state n = do
  answer ← call (StateRequestMsg.get_task_state n)
  pure (to_task_state answer)

abbrev to_task_ip : StateResponseMsg → String
to_task_ip (StateResponseMsg.task_ip ip) = ip
to_task_ip _ = ""

unfoldable pub request_task_ip : String → Exec String
request_task_ip n = do answer ← call (StateRequestMsg.get_task_ip n); pure (to_task_ip answer)

abbrev to_task_name : StateResponseMsg → String
to_task_name (StateResponseMsg.task_name n) = n
to_task_name _ = ""

unfoldable pub request_task_name_by_id : String → Exec String
request_task_name_by_id id = do
  answer ← call (StateRequestMsg.get_task_name_by_id id)
  pure (to_task_name answer)

unfoldable pub send_update_task_state : String → TaskState → Exec (Unit {0})
send_update_task_state n s = tell (StateRequestMsg.update_task_state n s)

unfoldable pub send_update_task_node_name : String → String → Exec (Unit {0})
send_update_task_node_name n node = tell (StateRequestMsg.update_task_node_name n node)

unfoldable pub send_update_task_info : String → String → String → String → Exec (Unit {0})
send_update_task_info n id ip slave_id = tell (StateRequestMsg.update_task_info n id ip slave_id)

-- The task that `send_start_task` builds from its arguments.
abbrev pub new_task : StateManager → TaskConfig → Bool → ℤ → Task
new_task sm c is_system_service now = record {
  name = c.name;
  controller = sm.my_name;
  id = "";
  image = c.image;
  node_name = c.node_name;
  node_type = c.node_type;
  node_function = c.node_function;
  dependent_service = c.dependent_service;
  arguments = c.arguments;
  parameters = c.parameters;
  memory = c.memory;
  cpu = c.cpu;
  volumes = c.volumes;
  privileged = c.privileged;
  sla = c.sla;
  is_metered = c.is_metered;
  is_system_service = is_system_service;
  is_job = c.is_job;
  network_type = c.network_type;
  ip = "";
  slave_id = "";
  state = TaskState.requested;
  last_update = now;
}

unfoldable pub send_start_task : StateManager → TaskConfig → Bool → Exec (Unit {0})
send_start_task sm c is_system_service = do
  now ← read_clock
  tell (StateRequestMsg.start_task (new_task sm c is_system_service now))

unfoldable pub send_restart_task : String → Exec (Unit {0})
send_restart_task n = tell (StateRequestMsg.restart_task n)

abbrev to_is_restartable : StateResponseMsg → Bool
to_is_restartable (StateResponseMsg.is_restartable_task b) = b
to_is_restartable _ = false

unfoldable pub request_is_restartable_task : String → Exec Bool
request_is_restartable_task n = do
  answer ← call (StateRequestMsg.get_is_restartable_task n)
  pure (to_is_restartable answer)

-- src/collaborator/mesos/client.rs: the global `MESOS`, and the request to kill a task, whose result
-- is only printed.
unfoldable pub set_mesos_client : Bool → Exec (Unit {0})
set_mesos_client is_set w = (ok tt, record w { has_client = is_set })

unfoldable pub kill_task : String → Exec (Unit {0})
kill_task n w = if w.has_client then (do try_call (kill n); pure tt) w else pure tt w

unfoldable pub send_kill_task_by_name : String → Exec (Unit {0})
unfolding kill_task
send_kill_task_by_name n = kill_task n

unfoldable pub send_remove_task_by_name : String → Exec (Unit {0})
send_remove_task_by_name n = tell (StateRequestMsg.remove_task n)

abbrev to_requested_tasks : StateResponseMsg → List Task
to_requested_tasks (StateResponseMsg.requested_tasks ts) = ts
to_requested_tasks _ = []

unfoldable pub request_list_requested_tasks : Exec (List Task)
request_list_requested_tasks = do
  answer ← call StateRequestMsg.get_requested_tasks
  pure (to_requested_tasks answer)

abbrev to_running_tasks : StateResponseMsg → List Task
to_running_tasks (StateResponseMsg.running_tasks ts) = ts
to_running_tasks _ = []

unfoldable pub request_list_running_tasks : Exec (List Task)
request_list_running_tasks = do
  answer ← call StateRequestMsg.get_running_tasks
  pure (to_running_tasks answer)

abbrev to_restart_tasks : StateResponseMsg → List Task
to_restart_tasks (StateResponseMsg.restart_tasks ts) = ts
to_restart_tasks _ = []

unfoldable pub request_list_restart_tasks : Exec (List Task)
request_list_restart_tasks = do
  answer ← call StateRequestMsg.get_restart_tasks
  pure (to_restart_tasks answer)

-- A node as the configuration describes it: the arguments of `send_add_node`.
pub record NodeConfig : Type 0 where
  pub name : String
  pub ip : String
  pub external_ip : String
  pub management_ip : String
  pub port_id : ℤ
  pub node_type : String

-- The node that `send_add_node` builds from its arguments.
abbrev pub new_node : ℤ → NodeConfig → Node
new_node now c = record {
  name = c.name;
  ip = c.ip;
  external_ip = c.external_ip;
  management_ip = c.management_ip;
  node_type = c.node_type;
  node_function = "none";
  active = false;
  slave_id = "";
  port_id = c.port_id;
  last_seen = now;
}

unfoldable pub send_add_node : NodeConfig → Exec (Unit {0})
send_add_node c = do now ← read_clock; tell (StateRequestMsg.add_node (new_node now c))

abbrev to_is_active : StateResponseMsg → Bool
to_is_active (StateResponseMsg.is_node_active b) = b
to_is_active _ = false

unfoldable pub request_is_node_active : String → Exec Bool
request_is_node_active n = do
  answer ← call (StateRequestMsg.get_is_node_active n)
  pure (to_is_active answer)

unfoldable pub send_set_node_inactive : String → Exec (Unit {0})
send_set_node_inactive n = tell (StateRequestMsg.set_node_inactive n)

unfoldable pub send_update_node : String → String → String → String → Exec (Unit {0})
send_update_node n node_type node_function slave_id =
    tell (StateRequestMsg.update_node n node_type node_function slave_id)

abbrev to_node : StateResponseMsg → Option Node
to_node (StateResponseMsg.node v) = some v
to_node _ = none

unfoldable pub request_node : String → Exec (Option Node)
request_node n = do answer ← call (StateRequestMsg.get_node n); pure (to_node answer)

abbrev to_nodes : StateResponseMsg → List Node
to_nodes (StateResponseMsg.nodes vs) = vs
to_nodes _ = []

unfoldable pub request_list_nodes : Exec (List Node)
request_list_nodes = do answer ← call StateRequestMsg.get_nodes; pure (to_nodes answer)

-- The route to a new task, if its node is given an answer for.
abbrev pub route_to : StateManager → Task → Option Node → Exec (Unit {0})
route_to sm task (some node) =
    emit (add_route sm.network_agent_type sm.network_agent_connection task.ip node.external_ip)
route_to sm task none = pure tt

unfoldable pub announce_new : StateManager → Task → Exec (Unit {0})
unfolding request_node request_task_ip
announce_new sm task = do
  node ← request_node task.node_name
  route_to sm task node
  ip ← request_task_ip task.name
  if is_empty ip
      then pure tt
      else emit (delete_route sm.network_agent_type sm.network_agent_connection ip)
  tell (StateRequestMsg.start_task task)

unfoldable pub send_announce_task : StateManager → Task → Exec (Unit {0})
unfolding request_task_name_by_id announce_new
send_announce_task sm task = do
  known_as ← request_task_name_by_id task.id
  if is_empty known_as
      then announce_new sm task
      else tell (StateRequestMsg.update_task_last_update task.name)
