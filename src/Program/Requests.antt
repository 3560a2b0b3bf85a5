-- ===== src/Program/Requests.antt =====
-- How the handlers of src/api/run_api.rs move the world on.
use torc_scheduler.Api.{
  JsonCodec, argument_of, unless_empty, start_found, stop_found, name_for, start_service,
  start_group, start_groups, handle_ping, handle_nodes, handle_node_startup, handle_node_shutdown,
  handle_services_metered, handle_services_running, handle_service, handle_service_delete,
  handle_start_service_group, handle_calico_configure, handle_calico_shutdown, handle_task_announce,
}
use torc_scheduler.Api.Routes.{
  Handler, Method, Request, RouterLibrary, routes, handle, answer_by, respond, run_api,
}
use torc_scheduler.Client.{World, Exec, pure, try_call, ◌>>=◌, ◌>>◌}
use torc_scheduler.Client.Moves.{
  moving, Advances, Moves, Moves-pure, Moves-bind, Moves-if, Moves-unwrap, Moves-call_or_panic,
  Moves-for_each, Moves-locked, Moves-try_call,
}
use torc_scheduler.Client.StateManager.{StateManager, kill_task, send_kill_task_by_name}
use torc_scheduler.Collaborator.{kill}
use torc_scheduler.Collaborator.Commands.{
  Command, send_command_to_node, startup_node, shutdown_node, is_slave, at_first_slave,
  configure_network, shutdown_network,
}
use torc_scheduler.Config.{YamlLibrary, read_task}
use torc_scheduler.Prelude.{
  String, Bool, true, false, if◌then◌else◌, Option, none, some, List, [], ◌∷◌, is_empty, ◌==◌,
}
use torc_scheduler.Program.Messages.{
  Holds-send_ping, Holds-request_list_nodes, Holds-request_node, Holds-request_list_running_tasks,
  Holds-request_task_name_by_id, Holds-send_announce_task, Holds-send_start_task,
}
use torc_scheduler.Records.{Node}

Moves-send_kill_task_by_name : (n : String) → Moves (send_kill_task_by_name n)
unfolding send_kill_task_by_name kill_task
Moves-send_kill_task_by_name n = record { at = λ w. either w w.has_client }
  where
    either :
        (w : World) (b : Bool)
        → Advances w (if b then (try_call (kill n) >>= λ _. pure tt) w else pure tt w).1
    either w true = (Moves-bind _ _ (Moves-try_call (kill n)) (λ _. Moves-pure tt)).at w
    either w false = (Moves-pure tt).at w

module _ (encode : Command → String) where
  Moves-send_command_to_node :
      (ip command env : String) → Moves (send_command_to_node encode ip command env)
  unfolding send_command_to_node
  Moves-send_command_to_node ip command env = Moves-call_or_panic _

  Moves-twice :
      (ip c c' env env' : String)
      → Moves (send_command_to_node encode ip c env >> send_command_to_node encode ip c' env')
  Moves-twice ip c c' env env' =
      Moves-bind _ _ (Moves-send_command_to_node ip c env)
        (λ _. Moves-send_command_to_node ip c' env')

  Moves-at_first_slave :
      (body : Node → Exec (Unit {0})) (nodes : List Node)
      → ((v : Node) → Moves (body v))
      → Moves (at_first_slave encode body nodes)
  unfolding at_first_slave
  Moves-at_first_slave body [] p = Moves-pure tt
  Moves-at_first_slave body (v ∷ nodes) p =
      Moves-if (is_slave v) _ _ (p v) (Moves-at_first_slave body nodes p)

  Moves-configure_network : (nodes : List Node) → Moves (configure_network encode nodes)
  unfolding configure_network
  Moves-configure_network nodes =
      Moves-bind _ _
        (Moves-for_each _ nodes
          (λ v. Moves-if (is_slave v) _ _ (Moves-send_command_to_node _ _ _) (Moves-pure tt)))
        (λ _. Moves-at_first_slave _ nodes (λ v. Moves-twice _ _ _ _ _))

  Moves-shutdown_network : (nodes : List Node) → Moves (shutdown_network encode nodes)
  unfolding shutdown_network
  Moves-shutdown_network nodes =
      Moves-bind _ _
        (Moves-for_each _ nodes
          (λ v. Moves-if (is_slave v) _ _ (Moves-twice _ _ _ _ _) (Moves-pure tt)))
        (λ _. Moves-at_first_slave _ nodes (λ v. Moves-twice _ _ _ _ _))

module _ (codec : JsonCodec) (sm : StateManager) where
  Moves-unless_empty :
      (name : String) (action : Exec (Unit {0})) → Moves action → Moves (unless_empty name action)
  Moves-unless_empty name action p = Moves-if (is_empty name) _ _ (Moves-pure tt) p

  Moves-start_found : (o : Option Node) → Moves (start_found codec sm o)
  unfolding startup_node
  Moves-start_found none = Moves-pure tt
  Moves-start_found (some v) = Moves-send_command_to_node codec.encode_command _ _ _

  Moves-stop_found : (o : Option Node) → Moves (stop_found codec sm o)
  unfolding shutdown_node
  Moves-stop_found none = Moves-pure tt
  Moves-stop_found (some v) = Moves-send_command_to_node codec.encode_command _ _ _

  Moves-name_for : (id : String) → Moves (name_for codec sm id)
  Moves-name_for id =
      Moves-if (is_empty id) _ _ (Moves-pure "")
        (Moves-locked _ _ (Holds-request_task_name_by_id moving id))

module _ (codec : JsonCodec) (lib : YamlLibrary) (sm : StateManager) where
  open lib use {Yaml, index, as_str, as_vec}

  Moves-start_service : (service : Yaml) → Moves (start_service codec lib sm service)
  Moves-start_service service =
      Moves-bind _ _ (Moves-locked _ _ (Moves-unwrap (read_task lib sm.master_ip service)))
        (λ c. Moves-locked _ _ (Holds-send_start_task moving sm c _))

  Moves-start_group : (name : String) (group : Yaml) → Moves (start_group codec lib sm name group)
  Moves-start_group name group =
      Moves-bind _ _ (Moves-unwrap (as_str (index group "name"))) (λ group_name.
        Moves-if (group_name == name) _ _
          (Moves-bind _ _ (Moves-unwrap (as_vec (index group "services")))
            (λ services. Moves-for_each _ services Moves-start_service))
          (Moves-pure tt))

  Moves-start_groups :
      (config : Yaml) (name : String) → Moves (start_groups codec lib sm config name)
  Moves-start_groups config name = Moves-bind _ _ (Moves-locked _ _ (Moves-pure config)) (λ c.
      Moves-bind _ _ (Moves-unwrap (as_vec (index (index c "api") "service-groups")))
        (λ groups. Moves-for_each _ groups (Moves-start_group name)))

  module _ (config : Yaml) where
    Moves-handle : (h : Handler) (r : Request) → Moves (handle codec lib config sm h r)
    unfolding handle handle_ping handle_nodes handle_node_startup handle_node_shutdown
        handle_services_metered handle_services_running handle_service handle_service_delete
        handle_start_service_group handle_calico_configure handle_calico_shutdown
        handle_task_announce
    Moves-handle Handler.ping r = Moves-pure _
    Moves-handle Handler.nodes r =
        Moves-bind _ _ (Moves-locked _ _ (Holds-request_list_nodes moving)) (λ nodes. Moves-pure _)
    Moves-handle Handler.node_startup r =
        let name = argument_of "name=" 5 r.query in
        Moves-bind _ _
          (Moves-unless_empty codec sm name _ (
            Moves-locked _ _ (
              Moves-bind _ _ (Holds-request_node moving name) (λ o. Moves-start_found codec sm o))))
          (λ _. Moves-pure _)
    Moves-handle Handler.node_shutdown r =
        let name = argument_of "name=" 5 r.query in
        Moves-bind _ _
          (Moves-unless_empty codec sm name _ (
            Moves-locked _ _
              (Moves-bind _ _ (Holds-request_node moving name) (λ o. Moves-stop_found codec sm o))))
          (λ _. Moves-pure _)
    Moves-handle Handler.services_metered r =
        Moves-bind _ _ (Moves-locked _ _ (Holds-request_list_running_tasks moving))
          (λ tasks. Moves-pure _)
    Moves-handle Handler.services_running r =
        Moves-bind _ _ (Moves-locked _ _ (Holds-request_list_running_tasks moving))
          (λ tasks. Moves-pure _)
    Moves-handle Handler.service r =
        Moves-bind _ _ (Moves-name_for codec sm (argument_of "id=" 3 r.query))
          (λ result. Moves-pure _)
    Moves-handle Handler.service_delete r =
        let name = argument_of "name=" 5 r.query in
        Moves-bind _ _
          (Moves-unless_empty codec sm name _
            (Moves-locked _ _ (Moves-send_kill_task_by_name name)))
          (λ _. Moves-pure _)
    Moves-handle Handler.start_service_group r =
        let name = argument_of "name=" 5 r.query in
        Moves-bind _ _ (Moves-unless_empty codec sm name _ (Moves-start_groups config name))
          (λ _. Moves-pure _)
    Moves-handle Handler.calico_configure r =
        Moves-bind _ _ (Moves-locked _ _ (Holds-request_list_nodes moving)) (λ nodes.
          Moves-bind _ _ (Moves-configure_network codec.encode_command nodes) (λ _. Moves-pure _))
    Moves-handle Handler.calico_shutdown r =
        Moves-bind _ _ (Moves-locked _ _ (Holds-request_list_nodes moving)) (λ nodes.
          Moves-bind _ _ (Moves-shutdown_network codec.encode_command nodes) (λ _. Moves-pure _))
    Moves-handle Handler.task_announce r = Moves-bind _ _ (Moves-unwrap r.body) (λ text.
        Moves-bind _ _ (Moves-unwrap (codec.decode_task text)) (λ decoded.
          Moves-bind _ _ (Moves-locked _ _ (Holds-send_announce_task moving sm decoded))
            (λ _. Moves-pure _)))

    Moves-answer_by : (o : Option Handler) (r : Request) → Moves (answer_by codec lib config sm o r)
    Moves-answer_by none r = Moves-pure none
    Moves-answer_by (some h) r = Moves-bind _ _ (Moves-handle h r) (λ a. Moves-pure (some a))

    pub Moves-respond :
        (find : RouterLibrary) (method : Method) (path : String) (r : Request)
        → Moves (respond codec lib config sm find method path r)
    unfolding respond
    Moves-respond find method path r = Moves-answer_by (find routes method path) r

pub Moves-run_api : (sm : StateManager) → Moves (run_api sm)
unfolding run_api
Moves-run_api sm = (Holds-send_ping moving)
