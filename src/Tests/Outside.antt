-- ===== src/Tests/Outside.antt =====
-- The HTTP interface and the commands that are sent to nodes.
use torc_scheduler.Api.{json_response, argument_of, handle_node_startup}
use torc_scheduler.Api.{handle_service_delete, Response}
use torc_scheduler.Api.Deleted.{deleted_service_ends}
use torc_scheduler.Api.Routes.{Method, Handler, Request, RouterLibrary, respond}
use torc_scheduler.Api.Reading.{ReadsAs, respond-ReadsAs}
use torc_scheduler.Client.{World, ok}
use torc_scheduler.Collaborator.{kill}
use torc_scheduler.Start.Stopped.{AllStop, unknown_node_stops_program}
use torc_scheduler.Mesos.{Offer, MesosTaskState, TaskStatus}
use torc_scheduler.Scheduler.Update.{update}
use torc_scheduler.Scheduler.Update.Outcome.{ended}
use torc_scheduler.Server.{State}
use torc_scheduler.Tests.Yaml.{monitor_config, yaml, config}
use torc_scheduler.Client.Accepting.{Calls}
use torc_scheduler.Client.Dead.{Dies}
use torc_scheduler.Client.Quiet.{Runs}
use torc_scheduler.Collaborator.Commands.{configure_network}
use torc_scheduler.Collaborator.Commands.Calico.{configured, slaves, configure_network-Calls}
use torc_scheduler.HashMap.{get}
use torc_scheduler.NodeList
use torc_scheduler.Prelude.{
  String, ◌≡◌, refl, Bool, true, false, ◌&&◌, ◌==◌, ◌++◌, if◌then◌else◌, some, none, [], ◌∷◌,
  is_empty,
}
use torc_scheduler.Prelude.Int.{pos}
use torc_scheduler.Records.{Node}
use torc_scheduler.Server.Validity.{IsValid}
use torc_scheduler.TaskList
use torc_scheduler.Tests.Data.{
  clean_config, no_json, sm, codec, plain_command, leaf, cluster, quiet_world, quiet_world-IsQuiet,
}

abbrev server_node : Node
server_node = record leaf { name = "server1"; ip = "10.0.2.1"; node_type = "slave" }

configure_network-Calls_example :
    Calls
      (configure_network plain_command (leaf ∷ server_node ∷ []))
      (configured plain_command (slaves (leaf ∷ server_node ∷ [])))
configure_network-Calls_example = configure_network-Calls plain_command (leaf ∷ server_node ∷ [])

name_is_given : argument_of "name=" 5 (some "name=spine1") ≡ "spine1"
unfolding argument_of
name_is_given = refl

pub spine_is_missing :
    NodeList.get_node (argument_of "name=" 5 (some "name=spine1")) cluster.node_list ≡ none
unfolding argument_of NodeList.get_node get
spine_is_missing = refl

pub a_name_is_given : is_empty (argument_of "name=" 5 (some "name=spine1")) ≡ false
unfolding argument_of
a_name_is_given = refl

names_are_keys : IsValid cluster
unfolding get
names_are_keys = record { tasks = (refl, refl, (refl, refl, tt)); nodes = (refl, refl, tt) }

-- A router that compares methods and paths.
abbrev same_method : Method → Method → Bool
same_method Method.get Method.get = true
same_method Method.post Method.post = true
same_method Method.delete Method.delete = true
same_method _ _ = false

abbrev pub router : RouterLibrary
router [] method path = none
router ((m, p, handler) ∷ table) method path =
    let later = router table method path in
    if same_method m method && p == path then some handler else later

abbrev service_request : Request
service_request = record { query = some "id=a1"; body = none }

respond-ReadsAs_example :
    (answer : Response) × Runs
      (pos 1000)
      (respond codec yaml config sm router Method.get "/service" service_request)
      cluster
      (some answer)
      []
      cluster
    × ReadsAs codec cluster (some "id=a1") Handler.service answer
respond-ReadsAs_example =
    respond-ReadsAs codec sm (pos 1000) cluster names_are_keys yaml config router Method.get
      "/service" Handler.service service_request refl tt

abbrev monitor_killed : TaskStatus
monitor_killed = record {
  task_id = "monitor";
  state = MesosTaskState.task_killed;
  text = none;
  slave_id = "s1";
}

monitor_is_given : is_empty (argument_of "name=" 5 (some "name=monitor")) ≡ false
unfolding argument_of
monitor_is_given = refl

monitor_is_named : "monitor" ≡ argument_of "name=" 5 (some "name=monitor")
unfolding argument_of
monitor_is_named = refl

deleted_service_ends_example :
    (w1 : World) × (w2 : World) × (s2 : State) × (handle_service_delete codec sm
        (some "name=monitor")
        (quiet_world cluster)
      ≡ (ok (json_response "done"), w1))
    × (w1.server ≡ some cluster)
    × (update no_json monitor_killed w1 ≡ (ok tt, w2))
    × (w2.trace ≡ [] ++ kill "monitor" ∷ [])
    × (w2.server ≡ some s2)
    × ((n : String)
        → TaskList.get_task n s2.task_list ≡ (
            if "monitor" == n
            then ended "torc" (pos 1000) (TaskList.get_task n cluster.task_list)
            else TaskList.get_task n cluster.task_list))
deleted_service_ends_example =
    deleted_service_ends codec no_json sm (pos 1000) cluster (some "name=monitor") monitor_killed
      (quiet_world cluster) (quiet_world-IsQuiet cluster) refl monitor_is_given monitor_is_named tt

abbrev an_offer : Offer
an_offer = record { id = "o1"; slave_id = "s1"; attributes = []; resources = [] }

unknown_node_stops_program_example :
    Dies (handle_node_startup codec sm (some "name=spine1")) (quiet_world cluster)
    × AllStop codec no_json sm clean_config monitor_config [] [] an_offer [] monitor_killed
        (handle_node_startup codec sm (some "name=spine1") (quiet_world cluster)).1
unknown_node_stops_program_example =
    unknown_node_stops_program codec no_json sm clean_config (pos 1000) cluster (some "name=spine1")
      monitor_config [] [] an_offer [] monitor_killed (quiet_world cluster)
      (quiet_world-IsQuiet cluster) a_name_is_given spine_is_missing tt
