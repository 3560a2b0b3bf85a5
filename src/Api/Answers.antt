-- ===== src/Api/Answers.antt =====
-- What the handlers of src/api/run_api.rs answer, and what ends the program instead.
use torc_scheduler.Api.{
  JsonCodec, json_response, argument_of, handle_node_startup, handle_services_running, start_found,
}
use torc_scheduler.Client.{World, pure, ◌>>=◌}
use torc_scheduler.Client.Dead.{Dies, Dies-bind}
use torc_scheduler.Client.Fatal.{request_node-Dies}
use torc_scheduler.Client.Lock.{locked, Runs-locked, Dies-locked}
use torc_scheduler.Client.Quiet.{IsQuiet, Runs, Runs-pure, Runs-bind, Runs-request}
use torc_scheduler.Client.StateManager.{StateManager, request_list_running_tasks, request_node}
use torc_scheduler.NodeList
use torc_scheduler.Prelude.{
  String, ◌≡◌, refl, sym, subst, ◌↔◌, Bool, true, false, not, Option, none, some, List, [], Member,
  member-filter_by, filter_by, is_empty, if◌then◌else◌,
}
use torc_scheduler.Prelude.Int.{ℤ}
use torc_scheduler.Records.{Task, TaskState}
use torc_scheduler.Server.{State, StateRequestMsg}
use torc_scheduler.Server.Handlers
use torc_scheduler.Server.Serve.{dispatch}
use torc_scheduler.Server.Validity.{IsValid}
use torc_scheduler.TaskList
use torc_scheduler.TaskList.Queries.{member-get_tasks_with_state}

-- In a quiet environment, a request to start up a node by a name that is given but not in the list
-- makes its handler panic and leaves no serving thread.
pub handle_node_startup-Dies :
    (codec : JsonCodec) (sm : StateManager) (now : ℤ) (s : State) (query : Option String)
    (w : World)
    → IsQuiet now s w
    → is_empty (argument_of "name=" 5 query) ≡ false
    → NodeList.get_node (argument_of "name=" 5 query) s.node_list ≡ none
    → Dies (handle_node_startup codec sm query) w
unfolding handle_node_startup
handle_node_startup-Dies codec sm now s query w q named unknown =
    let name = argument_of "name=" 5 query in
    Dies-bind _ _ w (
      subst
        (λ b.
          Dies
            (if b
              then pure tt
              else locked "node_startup_state_manager" (request_node name >>= start_found codec sm))
            w)
        (sym named)
        (Dies-locked now "node_startup_state_manager" _ s w q (
          Dies-bind (request_node name) (start_found codec sm) w
            (request_node-Dies now s name w q unknown))))

-- From a valid state and in a quiet environment, the handler of /services/running answers with the
-- JSON of a list that has exactly the stored tasks that run and are no jobs, calls no other system
-- and changes nothing.
pub handle_services_running_lem :
    (codec : JsonCodec) (sm : StateManager) (now : ℤ) (s : State)
    → IsValid s
    → (listed : List Task) × Runs now
        (handle_services_running codec sm)
        s
        (json_response (codec.encode_tasks listed))
        []
        s
      × ((t : Task)
          → Member t listed ↔ (
              (TaskList.get_task t.name s.task_list ≡ some t)
              × (t.state ≡ TaskState.running)
              × (t.is_job ≡ false)))
unfolding handle_services_running request_list_running_tasks dispatch
    Handlers.handle_get_running_tasks
handle_services_running_lem codec sm now s h =
    let running = TaskList.get_tasks_with_state TaskState.running s.task_list in
    let listed = filter_by (λ (t : Task). not t.is_job) running in
    (
      listed,
      Runs-bind now _ _ s s s running (json_response (codec.encode_tasks listed)) [] []
          (Runs-locked now "services_running_state_manager" request_list_running_tasks s s running
            [] (Runs-request now _ StateRequestMsg.get_running_tasks s _ refl))
          (Runs-pure now _ s),
      λ t.
          let passes = member-filter_by t (λ (u : Task). not u.is_job) running in
          let stored = member-get_tasks_with_state t TaskState.running s.task_list h.tasks in
          (
            λ m. (
              (stored.0 (passes.0 m).0).0,
              (stored.0 (passes.0 m).0).1,
              not-true t.is_job (passes.0 m).1,
            ),
            λ p. passes.1 (stored.1 (p.0, p.1), not-false t.is_job p.2),
          ),
    )
  where
    not-true : (b : Bool) → not b ≡ true → b ≡ false
    not-true true e = cc
    not-true false e = refl

    not-false : (b : Bool) → b ≡ false → not b ≡ true
    not-false true e = cc
    not-false false e = refl
