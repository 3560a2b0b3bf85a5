-- ===== src/Start/Stopped.antt =====
-- The whole program after a request for an unknown node in src/api/run_api.rs: the threads of
-- src/state/state.rs, src/health/run_health_checker.rs and src/scheduler, and the other handlers.
use torc_scheduler.Api.{JsonCodec, argument_of, handle_node_startup, handle_nodes}
use torc_scheduler.Api.Answers.{handle_node_startup-Dies}
use torc_scheduler.Background.{CleanConfig, sync_round, clean_round}
use torc_scheduler.Client.{World, for_each}
use torc_scheduler.Client.Dead.{Dies, Dies-bind, call-Dies}
use torc_scheduler.Client.Lock.{Dies-locked_dead}
use torc_scheduler.Client.Quiet.{IsQuiet}
use torc_scheduler.Client.StateManager.{
  StateManager, TaskConfig, request_list_running_tasks, request_list_requested_tasks,
  request_list_nodes, request_task_state, request_is_restartable_task, send_ping,
}
use torc_scheduler.Config.Settings.{DnsEntry}
use torc_scheduler.Health.{health_round, check_task}
use torc_scheduler.Mesos.{MesosTaskState, Offer, TaskStatus}
use torc_scheduler.NodeList
use torc_scheduler.Prelude.{String, ◌≡◌, false, Option, none, List, ◌∷◌, is_empty}
use torc_scheduler.Prelude.Int.{ℤ}
use torc_scheduler.Scheduler.Offers.{offers}
use torc_scheduler.Scheduler.Update.{JsonLibrary, task_ended, react, update}
use torc_scheduler.Scheduler.Update.Outcome.{HasEnded}
use torc_scheduler.Server.{State, StateRequestMsg}
use torc_scheduler.Start.{run_scheduler}

module _ (codec : JsonCodec) (json : JsonLibrary) (sm : StateManager) (c : CleanConfig) where
  -- What the threads do next: a round of the syncing, the cleaning and the health checking loop, a
  -- callback for offers and one for a task that has ended, the start of the scheduler, and a request
  -- for the nodes.
  pub record AllStop (t : TaskConfig) (tasks : List TaskConfig) (entries : List DnsEntry)
      (o : Offer) (os : List Offer) (status : TaskStatus) (w : World) : Type 0 where
    pub syncing : Dies (sync_round sm) w
    pub cleaning : Dies (clean_round sm c) w
    pub checking : Dies (health_round sm (t ∷ tasks) entries) w
    pub offered : Dies (offers (o ∷ os)) w
    pub ended : Dies (update json status) w
    pub starting : Dies (run_scheduler sm) w
    pub asked : Dies (handle_nodes codec sm) w

  module _ (w : World) (gone : w.server ≡ none) where
    running-Dies : Dies request_list_running_tasks w
    unfolding request_list_running_tasks
    running-Dies = Dies-bind _ _ w (call-Dies StateRequestMsg.get_running_tasks w gone)

    requested-Dies : Dies request_list_requested_tasks w
    unfolding request_list_requested_tasks
    requested-Dies = Dies-bind _ _ w (call-Dies StateRequestMsg.get_requested_tasks w gone)

    nodes-Dies : Dies request_list_nodes w
    unfolding request_list_nodes
    nodes-Dies = Dies-bind _ _ w (call-Dies StateRequestMsg.get_nodes w gone)

    ping-Dies : Dies send_ping w
    unfolding send_ping
    ping-Dies = Dies-bind _ _ w (call-Dies StateRequestMsg.ping w gone)

    check_task-Dies : (t : TaskConfig) → Dies (check_task sm t) w
    unfolding check_task request_task_state
    check_task-Dies t =
        Dies-bind _ _ w (Dies-bind _ _ w (call-Dies (StateRequestMsg.get_task_state t.name) w gone))

    task_ended-Dies : (n : String) → Dies (task_ended n) w
    unfolding task_ended request_is_restartable_task
    task_ended-Dies n =
        Dies-bind _ _ w
          (Dies-bind _ _ w (call-Dies (StateRequestMsg.get_is_restartable_task n) w gone))

    react-Dies :
        (k : MesosTaskState) (status : TaskStatus) → HasEnded k → Dies (react json k status) w
    react-Dies MesosTaskState.task_running status h = absurd h
    react-Dies MesosTaskState.other status h = absurd h
    react-Dies _ status h = task_ended-Dies status.task_id

    pub health_round-Dies :
        (t : TaskConfig) (tasks : List TaskConfig) (entries : List DnsEntry)
        → Dies (health_round sm (t ∷ tasks) entries) w
    unfolding health_round for_each
    health_round-Dies t tasks entries = Dies-bind _ _ w (Dies-bind _ _ w (check_task-Dies t))

    dead-AllStop :
        (t : TaskConfig) (tasks : List TaskConfig) (entries : List DnsEntry) (o : Offer)
        (os : List Offer) (status : TaskStatus)
        → HasEnded status.state
        → AllStop t tasks entries o os status w
    unfolding sync_round clean_round offers update run_scheduler handle_nodes
    dead-AllStop t tasks entries o os status h = record {
      syncing = Dies-bind _ _ w running-Dies;
      cleaning = Dies-bind _ _ w running-Dies;
      checking = health_round-Dies t tasks entries;
      offered = Dies-bind _ _ w requested-Dies;
      ended = react-Dies status.state status h;
      starting = Dies-bind _ _ w ping-Dies;
      asked = Dies-bind _ _ w (Dies-locked_dead _ _ w gone nodes-Dies);
    }

  -- In a quiet environment, one request to start up a node by a name that is given but not in the
  -- list stops the program: its handler panics, and after it so do the next rounds of the syncing,
  -- the cleaning and, if it has a service to check, the health checking loop, a callback for one or
  -- more offers and one for a task that has ended, the start of the scheduler, and a request for
  -- the nodes; none of them brings the serving thread back.
  pub unknown_node_stops_program :
      (now : ℤ) (s : State) (query : Option String) (t : TaskConfig) (tasks : List TaskConfig)
      (entries : List DnsEntry) (o : Offer) (os : List Offer) (status : TaskStatus) (w : World)
      → IsQuiet now s w
      → is_empty (argument_of "name=" 5 query) ≡ false
      → NodeList.get_node (argument_of "name=" 5 query) s.node_list ≡ none
      → HasEnded status.state
      → Dies (handle_node_startup codec sm query) w
        × AllStop t tasks entries o os status (handle_node_startup codec sm query w).1
  unknown_node_stops_program now s query t tasks entries o os status w q given unknown ends =
      let d = handle_node_startup-Dies codec sm now s query w q given unknown in
      (
        d,
        dead-AllStop (handle_node_startup codec sm query w).1 d.server t tasks entries o os status
            ends,
      )
