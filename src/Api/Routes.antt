-- ===== src/Api/Routes.antt =====
-- The routes that `run_api` of src/api/run_api.rs sets up.
use torc_scheduler.Api.{
  JsonCodec, Response, handle_ping, handle_nodes, handle_node_startup, handle_node_shutdown,
  handle_services_metered, handle_services_running, handle_service, handle_service_delete,
  handle_start_service_group, handle_calico_configure, handle_calico_shutdown, handle_task_announce,
}
use torc_scheduler.Client.{Exec, pure, ◌>>=◌}
use torc_scheduler.Client.StateManager.{StateManager, send_ping}
use torc_scheduler.Config.{YamlLibrary}
use torc_scheduler.Prelude.{String, Option, none, some, List, [], ◌∷◌}

pub data Method : Type 0 where
  get post delete : Method

-- The handlers that `run_api` hands to the router.
pub data Handler : Type 0 where
  ping nodes node_startup node_shutdown services_metered services_running service service_delete :
      Handler
  start_service_group calico_configure calico_shutdown task_announce : Handler

abbrev pub routes : List (Method × String × Handler)
routes =
    (Method.get, "/admin/ping", Handler.ping)
    ∷ (Method.get, "/nodes", Handler.nodes)
    ∷ (Method.get, "/node/startup", Handler.node_startup)
    ∷ (Method.get, "/node/shutdown", Handler.node_shutdown)
    ∷ (Method.get, "/services/metered", Handler.services_metered)
    ∷ (Method.get, "/services/running", Handler.services_running)
    ∷ (Method.get, "/service", Handler.service)
    ∷ (Method.delete, "/service", Handler.service_delete)
    ∷ (Method.get, "/start/group", Handler.start_service_group)
    ∷ (Method.get, "/calico/configure", Handler.calico_configure)
    ∷ (Method.get, "/calico/shutdown", Handler.calico_shutdown)
    ∷ (Method.post, "/service/announce", Handler.task_announce)
    ∷ []

-- What a handler uses of a request: the text after '?', and its body.
pub record Request : Type 0 where
  pub query : Option String
  pub body : Option String

-- The crate router: the handler that a table of routes has for a method and a path, `none` for a
-- request that it answers itself, with the status 404.
abbrev pub RouterLibrary : Type 0
RouterLibrary = List (Method × String × Handler) → Method → String → Option Handler

module _ (codec : JsonCodec) (lib : YamlLibrary) (config : lib.Yaml) (sm : StateManager) where
  unfoldable pub handle : Handler → Request → Exec Response
  handle Handler.ping r = handle_ping codec sm
  handle Handler.nodes r = handle_nodes codec sm
  handle Handler.node_startup r = handle_node_startup codec sm r.query
  handle Handler.node_shutdown r = handle_node_shutdown codec sm r.query
  handle Handler.services_metered r = handle_services_metered codec sm
  handle Handler.services_running r = handle_services_running codec sm
  handle Handler.service r = handle_service codec sm r.query
  handle Handler.service_delete r = handle_service_delete codec sm r.query
  handle Handler.start_service_group r = handle_start_service_group codec lib sm config r.query
  handle Handler.calico_configure r = handle_calico_configure codec sm
  handle Handler.calico_shutdown r = handle_calico_shutdown codec sm
  handle Handler.task_announce r = handle_task_announce codec sm r.body

  abbrev pub answer_by : Option Handler → Request → Exec (Option Response)
  answer_by none r = pure none
  answer_by (some handler) r = do answer ← handle handler r; pure (some answer)

  -- The server that `run_api` starts.
  unfoldable pub respond : RouterLibrary → Method → String → Request → Exec (Option Response)
  unfolding handle
  respond find method path r = answer_by (find routes method path) r

-- `run_api` before it sets up the routes.
unfoldable pub run_api : StateManager → Exec (Unit {0})
run_api sm = send_ping
