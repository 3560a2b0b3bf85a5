-- ===== src/Scheduler/Update/Running.antt =====
-- What `update` of src/scheduler/scheduler_impl.rs and `handle_inspect_data` of src/utils/docker.rs
-- make of a report that a task runs, while no other thread interferes.
use mathlib.Core.Option
use torc_scheduler.Client.{unwrap, ◌>>=◌}
use torc_scheduler.Client.Quiet.{Runs, Runs-pure, Runs-bind, Runs-unwrap, Runs-request}
use torc_scheduler.Client.StateManager.{request_node, send_update_task_info, send_update_task_state}
use torc_scheduler.Collaborator.{Effect}
use torc_scheduler.Collaborator.Consul.{register_running_task}
use torc_scheduler.Mesos.{MesosTaskState, TaskStatus}
use torc_scheduler.NodeList
use torc_scheduler.Prelude.{
  String, ◌≡◌, refl, sym, subst, ◌⊎◌, inl, inr, true, false, Option, none, some, List, [], ◌∷◌,
  arith, is_empty, ◌==◌, if◌then◌else◌,
}
use torc_scheduler.Prelude.Int.{ℤ}
use torc_scheduler.Records.{Task, TaskState, Node}
use torc_scheduler.Scheduler.Update.{
  JsonLibrary, first_of_array, string_at, ip_or_empty, own_or_node_ip, handle_inspect_data,
  task_started, react, update,
}
use torc_scheduler.Server.{State, StateRequestMsg, StateResponseMsg}
use torc_scheduler.Server.Handlers
use torc_scheduler.Server.Serve.{dispatch}
use torc_scheduler.TaskList
use torc_scheduler.TaskList.{with_state, with_info}
use torc_scheduler.TaskList.View as TaskView

abbrev pub ip_path : List String
ip_path = "NetworkSettings" ∷ "Networks" ∷ "torc" ∷ "IPAddress" ∷ []

module _ (lib : JsonLibrary) where
  -- The path leads to this text.
  abbrev pub TextAt : lib.Json → List String → String → Type 0
  TextAt first path text =
      (v : lib.Json) × (lib.find_path first path ≡ some v) × (lib.as_string v ≡ some text)

  -- The output of `docker inspect`: an identifier, a host name, and an address in the network torc,
  -- "" if there is none.
  pub record Inspected (text id host given : String) : Type 0 where
    pub json : lib.Json
    pub first : lib.Json
    pub rest : List lib.Json
    pub parsed : lib.from_str text ≡ some json
    pub listed : lib.as_array json ≡ some (first ∷ rest)
    pub id_at : TextAt first ("Id" ∷ []) id
    pub host_at : TextAt first ("Config" ∷ "Hostname" ∷ []) host
    pub ip_at : ((lib.find_path first ip_path ≡ none) × (given ≡ "")) ⊎ TextAt first ip_path given

  module _ (now : ℤ) where
    pub Runs-first :
        (json first : lib.Json) (rest : List lib.Json) (s : State)
        → lib.as_array json ≡ some (first ∷ rest)
        → Runs now (first_of_array lib json) s first [] s
    Runs-first json first rest s listed =
        Runs-bind now (unwrap (lib.as_array json)) _ s s s (first ∷ rest) first [] []
          (Runs-unwrap now _ (first ∷ rest) s listed) (Runs-pure now first s)

    pub Runs-string_at :
        (json first : lib.Json) (rest : List lib.Json) (path : List String) (text : String)
        (s : State)
        → lib.as_array json ≡ some (first ∷ rest)
        → TextAt first path text
        → Runs now (string_at lib json path) s text [] s
    unfolding string_at
    Runs-string_at json first rest path text s listed (v, found, reads) =
        Runs-bind now (first_of_array lib json) _ s s s first text [] []
          (Runs-first json first rest s listed)
          (Runs-bind now (unwrap (lib.find_path first path)) _ s s s v text [] []
            (Runs-unwrap now _ v s found) (Runs-unwrap now _ text s reads))

    pub Runs-ip_or_empty :
        (first : lib.Json) (given : String) (s : State)
        → ((lib.find_path first ip_path ≡ none) × (given ≡ "")) ⊎ TextAt first ip_path given
        → Runs now (ip_or_empty lib (lib.find_path first ip_path)) s given [] s
    Runs-ip_or_empty first given s (inl (missing, empty)) = rw (missing, empty) (Runs-pure now "" s)
    Runs-ip_or_empty first given s (inr (v, found, reads)) =
        rw found (Runs-unwrap now _ given s reads)

    -- The address that the task gets: its own, or that of its node.
    abbrev pub Addressed : State → String → String → String → Type 0
    Addressed s host given ip =
        ((is_empty given ≡ false) × (ip ≡ given))
        ⊎ ((is_empty given ≡ true)
            × ((v : Node) × (NodeList.get_node host s.node_list ≡ some v) × (ip ≡ v.ip)))

    Runs-request_node :
        (n : String) (v : Node) (s : State)
        → NodeList.get_node n s.node_list ≡ some v
        → Runs now (request_node n) s (some v) [] s
    unfolding request_node dispatch Handlers.handle_get_node
    Runs-request_node n v s e =
        Runs-request now _ (StateRequestMsg.get_node n) s
          (record { state = s; answer = StateResponseMsg.node v; effects = [] })
          (rw (e, Handlers.handle_get_node) refl)

    Runs-own_or_node_ip :
        (host given ip : String) (s : State)
        → Addressed s host given ip
        → Runs now (own_or_node_ip lib given host) s ip [] s
    unfolding own_or_node_ip
    Runs-own_or_node_ip host given ip s (inl (own, same)) = rw (own, same) (Runs-pure now given s)
    Runs-own_or_node_ip host given ip s (inr (empty, (v, stored, same))) =
        rw (empty, same)
          (Runs-bind now (request_node host) _ s s s (some v) v.ip [] []
            (Runs-request_node host v s stored) (Runs-pure now v.ip s))

    -- `handle_inspect_data` up to the question for the address.
    Runs-inspect :
        (task text slave id host given ip : String) (s s' : State)
        → Inspected text id host given
        → Runs now
            (own_or_node_ip lib given host >>= λ a. send_update_task_info task id a slave)
            s
            tt
            []
            s'
        → Runs now (handle_inspect_data lib task text slave) s tt [] s'
    unfolding handle_inspect_data
    Runs-inspect task text slave id host given ip s s' r rest =
        Runs-bind now (unwrap (lib.from_str text)) _ s s s' r.json tt [] []
          (Runs-unwrap now _ r.json s r.parsed)
          (Runs-bind now (string_at lib r.json ("Id" ∷ [])) _ s s s' id tt [] []
            (Runs-string_at r.json r.first r.rest ("Id" ∷ []) id s r.listed r.id_at)
            (Runs-bind now (string_at lib r.json ("Config" ∷ "Hostname" ∷ [])) _ s s s' host tt []
              []
              (Runs-string_at r.json r.first r.rest ("Config" ∷ "Hostname" ∷ []) host s r.listed
                r.host_at)
              (Runs-bind now (first_of_array lib r.json) _ s s s' r.first tt [] []
                (Runs-first r.json r.first r.rest s r.listed)
                (Runs-bind now (ip_or_empty lib (lib.find_path r.first ip_path)) _ s s s' given tt
                  [] [] (Runs-ip_or_empty r.first given s r.ip_at) rest))))

    abbrev pub with_running : String → String → String → Task → Task
    with_running id ip slave t = with_state TaskState.running (with_info id ip slave t)

    -- The task is registered, if it is stored.
    abbrev pub registers : String → Option Task → List Effect
    registers master_ip none = []
    registers master_ip (some t) = register_running_task master_ip t

    abbrev informed : String → String → String → String → State → State
    informed n id ip slave s = record s {
      task_list = TaskList.set_task_info n id ip slave s.task_list;
    }

    abbrev started : String → State → State
    started n s = record s { task_list = TaskList.set_task_state n TaskState.running s.task_list }

    Runs-send_running :
        (n : String) (s : State)
        → Runs now
            (send_update_task_state n TaskState.running)
            s
            tt
            (registers s.master_ip (TaskList.get_task n (started n s).task_list))
            (started n s)
    unfolding send_update_task_state dispatch Handlers.handle_update_task_state
    Runs-send_running n s =
        subst (λ es. Runs now (send_update_task_state n TaskState.running) s tt es (started n s))
          (registers_lem (TaskList.get_task n (started n s).task_list))
          (Runs-request now (λ _. tt) (StateRequestMsg.update_task_state n TaskState.running) s _
            refl)
      where
        registers_lem :
            (o : Option Task)
            → (elim o [ some t ↦ register_running_task s.master_ip t | none ↦ [] ])
              ≡ registers s.master_ip o
        registers_lem none = refl
        registers_lem (some t) = refl

    Runs-send_info :
        (n id ip slave : String) (s : State)
        → Runs now (send_update_task_info n id ip slave) s tt [] (informed n id ip slave s)
    unfolding send_update_task_info dispatch Handlers.handle_update_task_info
    Runs-send_info n id ip slave s =
        Runs-request now (λ _. tt) (StateRequestMsg.update_task_info n id ip slave) s _ refl

    task-running :
        (n m id ip slave : String) (s : State)
        → TaskList.get_task m (started n (informed n id ip slave s)).task_list ≡ (
            if n == m
            then Option.map (with_running id ip slave) (TaskList.get_task m s.task_list)
            else TaskList.get_task m s.task_list)
    task-running n m id ip slave s = ground (
      arith,
      TaskView.get_task-set_task_state (informed n id ip slave s).task_list m n TaskState.running,
      TaskView.get_task-set_task_info s.task_list m n id ip slave,
    )

    -- In a quiet environment a report that a task runs, with the output of docker inspect, ends
    -- without a panic: the task named gets the id, the slave and the address of the container, or
    -- that of the node it is on if the container has none, and is set running and registered if it
    -- is stored; every other task and every node is left alone.
    pub update-running :
        (s : State) (status : TaskStatus) (text id host given ip : String)
        → status.state ≡ MesosTaskState.task_running
        → status.text ≡ some text
        → Inspected text id host given
        → Addressed s host given ip
        → (s' : State) × Runs now
            (update lib status)
            s
            tt
            (registers s.master_ip (TaskList.get_task status.task_id s'.task_list))
            s'
          × ((m : String)
              → TaskList.get_task m s'.task_list ≡ (
                  if status.task_id == m
                  then Option.map
                      (with_running id ip status.slave_id)
                      (TaskList.get_task m s.task_list)
                  else TaskList.get_task m s.task_list))
          × (s'.node_list ≡ s.node_list)
    unfolding update task_started
    update-running s status text id host given ip runs told inspected addressed =
        let n = status.task_id in
        let s1 = informed n id ip status.slave_id s in
        let s2 = started n s1 in
        let calls = registers s.master_ip (TaskList.get_task n s2.task_list) in
        (
          s2,
          subst (λ k. Runs now (react lib k status) s tt calls s2) (sym runs)
              (Runs-bind now (unwrap status.text) _ s s s2 text tt [] calls
                (Runs-unwrap now status.text text s told)
                (Runs-bind now (handle_inspect_data lib n text status.slave_id) _ s s1 s2 tt tt []
                  calls
                  (Runs-inspect n text status.slave_id id host given ip s s1 inspected (
                    Runs-bind now (own_or_node_ip lib given host) _ s s s1 ip tt [] []
                      (Runs-own_or_node_ip host given ip s addressed)
                      (Runs-send_info n id ip status.slave_id s)))
                  (Runs-send_running n s1))),
          λ m. task-running n m id ip status.slave_id s,
          refl,
        )
