-- ===== src/Program/Messages.antt =====
-- The methods of StateManager of src/state/state.rs, for the properties of Client/Closed.
use torc_scheduler.Client.Closed.{Closed, Holds-if, Holds-request}
use torc_scheduler.Client.StateManager.{
  StateManager, TaskConfig, NodeConfig, send_ping, request_task_state, request_task_ip,
  request_task_name_by_id, send_update_task_state, send_update_task_node_name,
  send_update_task_info, send_start_task, send_restart_task, request_is_restartable_task,
  send_remove_task_by_name, request_list_requested_tasks, request_list_running_tasks,
  request_list_restart_tasks, send_add_node, request_is_node_active, send_set_node_inactive,
  send_update_node, request_node, request_list_nodes, route_to, announce_new, send_announce_task,
}
use torc_scheduler.Prelude.{String, Bool, Option, none, some, is_empty}
use torc_scheduler.Records.{Task, TaskState, Node}
use torc_scheduler.Server.{StateRequestMsg}

module _ (c : Closed) where
  pub Holds-send_ping : c.Holds send_ping
  unfolding send_ping
  Holds-send_ping = Holds-request c StateRequestMsg.ping _

  pub Holds-request_task_state : (n : String) → c.Holds (request_task_state n)
  unfolding request_task_state
  Holds-request_task_state n = Holds-request c (StateRequestMsg.get_task_state n) _

  Holds-request_task_ip : (n : String) → c.Holds (request_task_ip n)
  unfolding request_task_ip
  Holds-request_task_ip n = Holds-request c (StateRequestMsg.get_task_ip n) _

  pub Holds-request_task_name_by_id : (id : String) → c.Holds (request_task_name_by_id id)
  unfolding request_task_name_by_id
  Holds-request_task_name_by_id id = Holds-request c (StateRequestMsg.get_task_name_by_id id) _

  pub Holds-send_update_task_state :
      (n : String) (k : TaskState) → c.Holds (send_update_task_state n k)
  unfolding send_update_task_state
  Holds-send_update_task_state n k = Holds-request c (StateRequestMsg.update_task_state n k) _

  pub Holds-send_update_task_node_name : (n v : String) → c.Holds (send_update_task_node_name n v)
  unfolding send_update_task_node_name
  Holds-send_update_task_node_name n v =
      Holds-request c (StateRequestMsg.update_task_node_name n v) _

  pub Holds-send_update_task_info :
      (n id ip slave : String) → c.Holds (send_update_task_info n id ip slave)
  unfolding send_update_task_info
  Holds-send_update_task_info n id ip slave =
      Holds-request c (StateRequestMsg.update_task_info n id ip slave) _

  pub Holds-send_start_task :
      (sm : StateManager) (config : TaskConfig) (b : Bool) → c.Holds (send_start_task sm config b)
  unfolding send_start_task
  Holds-send_start_task sm config b =
      c.of_bind _ _ c.of_read_clock (λ now. Holds-request c (StateRequestMsg.start_task _) _)

  pub Holds-send_restart_task : (n : String) → c.Holds (send_restart_task n)
  unfolding send_restart_task
  Holds-send_restart_task n = Holds-request c (StateRequestMsg.restart_task n) _

  pub Holds-request_is_restartable_task : (n : String) → c.Holds (request_is_restartable_task n)
  unfolding request_is_restartable_task
  Holds-request_is_restartable_task n =
      Holds-request c (StateRequestMsg.get_is_restartable_task n) _

  pub Holds-send_remove_task_by_name : (n : String) → c.Holds (send_remove_task_by_name n)
  unfolding send_remove_task_by_name
  Holds-send_remove_task_by_name n = Holds-request c (StateRequestMsg.remove_task n) _

  pub Holds-request_list_requested_tasks : c.Holds request_list_requested_tasks
  unfolding request_list_requested_tasks
  Holds-request_list_requested_tasks = Holds-request c StateRequestMsg.get_requested_tasks _

  pub Holds-request_list_running_tasks : c.Holds request_list_running_tasks
  unfolding request_list_running_tasks
  Holds-request_list_running_tasks = Holds-request c StateRequestMsg.get_running_tasks _

  pub Holds-request_list_restart_tasks : c.Holds request_list_restart_tasks
  unfolding request_list_restart_tasks
  Holds-request_list_restart_tasks = Holds-request c StateRequestMsg.get_restart_tasks _

  pub Holds-send_add_node : (config : NodeConfig) → c.Holds (send_add_node config)
  unfolding send_add_node
  Holds-send_add_node config =
      c.of_bind _ _ c.of_read_clock (λ now. Holds-request c (StateRequestMsg.add_node _) _)

  pub Holds-request_is_node_active : (n : String) → c.Holds (request_is_node_active n)
  unfolding request_is_node_active
  Holds-request_is_node_active n = Holds-request c (StateRequestMsg.get_is_node_active n) _

  pub Holds-send_set_node_inactive : (n : String) → c.Holds (send_set_node_inactive n)
  unfolding send_set_node_inactive
  Holds-send_set_node_inactive n = Holds-request c (StateRequestMsg.set_node_inactive n) _

  pub Holds-send_update_node :
      (n type function slave : String) → c.Holds (send_update_node n type function slave)
  unfolding send_update_node
  Holds-send_update_node n type function slave =
      Holds-request c (StateRequestMsg.update_node n type function slave) _

  pub Holds-request_node : (n : String) → c.Holds (request_node n)
  unfolding request_node
  Holds-request_node n = Holds-request c (StateRequestMsg.get_node n) _

  pub Holds-request_list_nodes : c.Holds request_list_nodes
  unfolding request_list_nodes
  Holds-request_list_nodes = Holds-request c StateRequestMsg.get_nodes _

  Holds-route_to :
      (sm : StateManager) (task : Task) (o : Option Node) → c.Holds (route_to sm task o)
  Holds-route_to sm task none = c.of_pure tt
  Holds-route_to sm task (some node) = c.of_emit _

  Holds-announce_new : (sm : StateManager) (task : Task) → c.Holds (announce_new sm task)
  unfolding announce_new
  Holds-announce_new sm task = c.of_bind _ _ (Holds-request_node task.node_name) (λ node.
      c.of_bind _ _ (Holds-route_to sm task node) (λ _.
        c.of_bind _ _ (Holds-request_task_ip task.name) (λ ip.
          c.of_bind _ _ (Holds-if c (is_empty ip) _ _ (c.of_pure tt) (c.of_emit _))
            (λ _. Holds-request c (StateRequestMsg.start_task task) _))))

  pub Holds-send_announce_task :
      (sm : StateManager) (task : Task) → c.Holds (send_announce_task sm task)
  unfolding send_announce_task
  Holds-send_announce_task sm task =
      c.of_bind _ _ (Holds-request_task_name_by_id task.id) (λ known_as.
        Holds-if c (is_empty known_as) _ _ (Holds-announce_new sm task)
          (Holds-request c (StateRequestMsg.update_task_last_update task.name) _))
