-- ===== src/Api/Reading.antt =====
-- The handlers of src/api/run_api.rs that only read.
use torc_scheduler.Api.{
  JsonCodec, Response, handle_ping, handle_nodes, handle_services_metered, handle_services_running,
  handle_service, json_response, argument_of,
}
use torc_scheduler.Client.{Exec, pure, ◌>>=◌}
use torc_scheduler.Client.Lock.{locked, Runs-locked}
use torc_scheduler.Client.Quiet.{Runs, Runs-pure, Runs-bind, Runs-request}
use torc_scheduler.Client.StateManager.{
  StateManager, request_list_nodes, request_list_running_tasks, request_task_name_by_id,
}
use torc_scheduler.Config.{YamlLibrary}
use torc_scheduler.NodeList
use torc_scheduler.NodeList.View as NodeView
use torc_scheduler.Prelude.{
  String, ◌≡◌, ◌↔◌, refl, Member, member-filter_by, Bool, true, false, not, Option, some, List, [],
  filter_by, is_empty, if◌then◌else◌, inl, inr, Bool-cases,
}
use torc_scheduler.Prelude.Int.{ℤ}
use torc_scheduler.Records.{Task, TaskState, Node}
use torc_scheduler.Server.{State, StateRequestMsg}
use torc_scheduler.Server.Handlers
use torc_scheduler.Server.Serve.{dispatch}
use torc_scheduler.Server.Validity.{IsValid}
use torc_scheduler.TaskList
use torc_scheduler.TaskList.Queries.{Found, member-get_tasks_with_state, get_task_name_by_id-Found}
use torc_scheduler.Api.Routes.{Handler, Method, Request, RouterLibrary, routes, handle, respond}

-- The handlers that only read.
abbrev pub IsReading : Handler → Type 0
IsReading Handler.ping = Unit
IsReading Handler.nodes = Unit
IsReading Handler.services_metered = Unit
IsReading Handler.services_running = Unit
IsReading Handler.service = Unit
IsReading _ = ⊥

-- A list with exactly the stored tasks that run and pass the test.
abbrev pub ListsRunning : (Task → Bool) → State → List Task → Type 0
ListsRunning p s ts =
    (t : Task)
    → Member t ts ↔ (
        (TaskList.get_task t.name s.task_list ≡ some t)
        × (t.state ≡ TaskState.running)
        × (p t ≡ true))

-- The name that is answered for an id: "" if none is given.
abbrev pub NamedById : State → String → String → Type 0
NamedById s id name = if is_empty id then name ≡ "" else Found id s.task_list name

module _ (codec : JsonCodec) (s : State) (query : Option String) where
  -- What a handler that reads answers in `s`.
  abbrev pub ReadsAs : Handler → Response → Type 0
  ReadsAs Handler.ping answer =
      answer ≡ record { is_json = false; body = "pong"; any_origin = false }
  ReadsAs Handler.nodes answer =
      (vs : List Node) × (answer ≡ json_response (codec.encode_nodes vs))
      × ((v : Node) → Member v vs ↔ (NodeList.get_node v.name s.node_list ≡ some v))
  ReadsAs Handler.services_metered answer =
      (ts : List Task) × (answer ≡ json_response (codec.encode_tasks ts))
      × ListsRunning (λ t. t.is_metered) s ts
  ReadsAs Handler.services_running answer =
      (ts : List Task) × (answer ≡ json_response (codec.encode_tasks ts))
      × ListsRunning (λ t. not t.is_job) s ts
  ReadsAs Handler.service answer =
      (name : String) × (answer
        ≡ record (json_response (codec.encode_result name)) { any_origin = true })
      × NamedById s (argument_of "id=" 3 query) name
  ReadsAs _ answer = ⊥

module _ (codec : JsonCodec) (sm : StateManager) (now : ℤ) (s : State) (h : IsValid s) where
  Runs-list_nodes : Runs now request_list_nodes s (NodeList.get_nodes s.node_list) [] s
  unfolding request_list_nodes dispatch Handlers.handle_get_nodes
  Runs-list_nodes = Runs-request now _ StateRequestMsg.get_nodes s _ refl

  Runs-list_running :
      Runs now request_list_running_tasks s
        (TaskList.get_tasks_with_state TaskState.running s.task_list)
        []
        s
  unfolding request_list_running_tasks dispatch Handlers.handle_get_running_tasks
  Runs-list_running = Runs-request now _ StateRequestMsg.get_running_tasks s _ refl

  Runs-name_by_id :
      (id : String)
      → Runs now (request_task_name_by_id id) s (TaskList.get_task_name_by_id id s.task_list) [] s
  unfolding request_task_name_by_id dispatch Handlers.handle_get_task_name_by_id
  Runs-name_by_id id = Runs-request now _ (StateRequestMsg.get_task_name_by_id id) s _ refl

  Runs-answer :
      {A : Type 0} (name : String) (m : Exec A) (a : A) (answer : A → Response)
      → Runs now m s a [] s
      → Runs now (locked name m >>= λ b. pure (answer b)) s (answer a) [] s
  Runs-answer name m a answer r =
      Runs-bind now (locked name m) _ s s s a (answer a) [] [] (Runs-locked now name m s s a [] r)
        (Runs-pure now (answer a) s)

  filter_by-ListsRunning :
      (p : Task → Bool)
      → ListsRunning p s (filter_by p (TaskList.get_tasks_with_state TaskState.running s.task_list))
  filter_by-ListsRunning p t =
      let passes =
        member-filter_by t p (TaskList.get_tasks_with_state TaskState.running s.task_list) in
      let stored = member-get_tasks_with_state t TaskState.running s.task_list h.tasks in
      (
        λ m. ((stored.0 (passes.0 m).0).0, (stored.0 (passes.0 m).0).1, (passes.0 m).1),
        λ q. passes.1 (stored.1 (q.0, q.1), q.2),
      )

  named_by_id :
      (id : String)
      → (name : String) × Runs now
          (if is_empty id
            then pure ""
            else locked "service_state_manager" (request_task_name_by_id id))
          s
          name
          []
          s
        × NamedById s id name
  named_by_id id = elim (Bool-cases (is_empty id)) [
    | inl e ↦ ("", rw e (Runs-pure now "" s), rw e refl)
    | inr e ↦ (
      TaskList.get_task_name_by_id id s.task_list,
      rw e (Runs-locked now "service_state_manager" _ s s _ [] (Runs-name_by_id id)),
      rw e (get_task_name_by_id-Found id s.task_list h.tasks),
    )
  ]

  handle-ReadsAs :
      (lib : YamlLibrary) (config : lib.Yaml) (handler : Handler) (r : Request)
      → IsReading handler
      → (answer : Response) × Runs now (handle codec lib config sm handler r) s answer [] s
        × ReadsAs codec s r.query handler answer
  unfolding handle handle_ping handle_nodes handle_services_metered handle_services_running
      handle_service
  handle-ReadsAs lib config Handler.ping r reads = (_, Runs-pure now _ s, refl)
  handle-ReadsAs lib config Handler.nodes r reads = (
    json_response (codec.encode_nodes (NodeList.get_nodes s.node_list)),
    Runs-answer _ request_list_nodes _ _ Runs-list_nodes,
    (NodeList.get_nodes s.node_list, refl, NodeView.member-get_nodes s.node_list h.nodes),
  )
  handle-ReadsAs lib config Handler.services_metered r reads = (
    json_response (
        codec.encode_tasks (
          filter_by (λ (t : Task). t.is_metered)
            (TaskList.get_tasks_with_state TaskState.running s.task_list))),
    Runs-answer _ request_list_running_tasks _ _ Runs-list_running,
    (_, refl, filter_by-ListsRunning (λ t. t.is_metered)),
  )
  handle-ReadsAs lib config Handler.services_running r reads = (
    json_response (
        codec.encode_tasks (
          filter_by (λ (t : Task). not t.is_job)
            (TaskList.get_tasks_with_state TaskState.running s.task_list))),
    Runs-answer _ request_list_running_tasks _ _ Runs-list_running,
    (_, refl, filter_by-ListsRunning (λ t. not t.is_job)),
  )
  handle-ReadsAs lib config Handler.service r reads =
      let (name, runs, names) = named_by_id (argument_of "id=" 3 r.query) in
      (
        record (json_response (codec.encode_result name)) { any_origin = true },
        Runs-bind now _ _ s s s name _ [] [] runs (Runs-pure now _ s),
        (name, refl, names),
      )
  handle-ReadsAs lib config _ r reads = absurd reads

  -- From a valid state and in a quiet environment, a request that the router gives to one of the
  -- five handlers that only read is answered, calls nothing and changes nothing: with the nodes of
  -- the list, the running tasks that are metered, those that are no jobs, the name of a task with
  -- such an id, or pong.
  pub respond-ReadsAs :
      (lib : YamlLibrary) (config : lib.Yaml) (find : RouterLibrary) (method : Method)
      (path : String) (handler : Handler) (r : Request)
      → find routes method path ≡ some handler
      → IsReading handler
      → (answer : Response) × Runs now
          (respond codec lib config sm find method path r)
          s
          (some answer)
          []
          s
        × ReadsAs codec s r.query handler answer
  unfolding respond
  respond-ReadsAs lib config find method path handler r routed reads =
      let (answer, runs, fits) = handle-ReadsAs lib config handler r reads in
      (
        answer,
        rw routed (
            Runs-bind now (handle codec lib config sm handler r) _ s s s answer (some answer) [] []
              runs (Runs-pure now (some answer) s)),
        fits,
      )
