-- ===== src/Server/Answers.antt =====
-- What the serving thread of src/state/state.rs answers, seen from outside: by the tasks and nodes
-- that stand under each name, without the lists.
use torc_scheduler.HashMap.{get}
use torc_scheduler.NodeList
use torc_scheduler.NodeList.View as NodeView
use torc_scheduler.Prelude.{
  String, ◌≡◌, refl, sym, ◌∙◌, ◌↔◌, ◌⊎◌, inl, inr, Bool, true, false, not, ◌&&◌, ◌==◌, Option, none,
  some, List, [], ◌∷◌, arith, Member, Option-cases, subst,
}
use torc_scheduler.Prelude.Int.{ℤ}
use torc_scheduler.Records.{Task, TaskState, Node}
use torc_scheduler.Server.{State, StateRequestMsg, StateResponseMsg, Served, start_state}
use torc_scheduler.Server.Handlers
use torc_scheduler.Server.Handlers.{is_restartable}
use torc_scheduler.Server.Refinement.{Shows, task_history, node_history, serve_all-Shows}
use torc_scheduler.Server.Serve.{dispatch, serve_all, next_state}
use torc_scheduler.Server.Validity.{IsValid, IsValidIfAlive, start_state-IsValid, serve_all-IsValid}
use torc_scheduler.TaskList
use torc_scheduler.TaskList.{id_matches}
use torc_scheduler.TaskList.Queries.{member-get_tasks_with_state, get_task_name_by_id-Found}

module _ (my_name : String) (tasks : String → Option Task) (nodes : String → Option Node) where
  -- The list has exactly the tasks in that state.
  abbrev pub AreIn : TaskState → List Task → Type 0
  AreIn k ts = (t : Task) → Member t ts ↔ ((tasks t.name ≡ some t) × (t.state ≡ k))

  abbrev pub state_of : Option Task → TaskState
  state_of none = TaskState.not_running
  state_of (some t) = t.state

  abbrev pub ip_of : Option Task → String
  ip_of none = ""
  ip_of (some t) = t.ip

  abbrev pub is_restartable_at : Option Task → Bool
  is_restartable_at none = false
  is_restartable_at (some t) = t.is_system_service && t.controller == my_name && not t.is_job

  abbrev pub is_active_at : Option Node → Bool
  is_active_at none = false
  is_active_at (some v) = v.active

  -- The name of a task whose id begins with the prefix, "" only if there is none.
  abbrev pub IsNameById : String → String → Type 0
  IsNameById id name =
      ((t : Task) × (tasks t.name ≡ some t) × (id_matches id t ≡ true) × (name ≡ t.name))
      ⊎ ((name ≡ "") × ((t : Task) → tasks t.name ≡ some t → id_matches id t ≡ false))

  -- The answers that fit a message.
  abbrev pub Answers : StateRequestMsg → StateResponseMsg → Type 0
  Answers StateRequestMsg.ping StateResponseMsg.pong = Unit
  Answers (StateRequestMsg.get_task_state n) (StateResponseMsg.task_state k) =
      k ≡ state_of (tasks n)
  Answers (StateRequestMsg.get_task_ip n) (StateResponseMsg.task_ip ip) = ip ≡ ip_of (tasks n)
  Answers (StateRequestMsg.get_task_name_by_id id) (StateResponseMsg.task_name name) =
      IsNameById id name
  Answers (StateRequestMsg.update_task_state n k) StateResponseMsg.updated_task_state = Unit
  Answers (StateRequestMsg.update_task_node_name n v) StateResponseMsg.updated_task_node_name = Unit
  Answers (StateRequestMsg.update_task_info n id ip slave) StateResponseMsg.updated_task_info = Unit
  Answers (StateRequestMsg.update_task_last_update n) StateResponseMsg.updated_task_last_update =
      Unit
  Answers (StateRequestMsg.start_task t) StateResponseMsg.started_task = Unit
  Answers (StateRequestMsg.restart_task n) StateResponseMsg.restarted_task = Unit
  Answers (StateRequestMsg.remove_task n) StateResponseMsg.removed_task = Unit
  Answers (StateRequestMsg.get_is_restartable_task n) (StateResponseMsg.is_restartable_task b) =
      b ≡ is_restartable_at (tasks n)
  Answers StateRequestMsg.get_requested_tasks (StateResponseMsg.requested_tasks ts) =
      AreIn TaskState.requested ts
  Answers StateRequestMsg.get_running_tasks (StateResponseMsg.running_tasks ts) =
      AreIn TaskState.running ts
  Answers StateRequestMsg.get_restart_tasks (StateResponseMsg.restart_tasks ts) =
      AreIn TaskState.restart ts
  Answers (StateRequestMsg.add_node v) StateResponseMsg.added_node = Unit
  Answers (StateRequestMsg.get_is_node_active n) (StateResponseMsg.is_node_active b) =
      b ≡ is_active_at (nodes n)
  Answers (StateRequestMsg.update_node n type function slave) StateResponseMsg.updated_node = Unit
  Answers (StateRequestMsg.set_node_inactive n) StateResponseMsg.node_set_inactive = Unit
  Answers (StateRequestMsg.get_node n) (StateResponseMsg.node v) = nodes n ≡ some v
  Answers StateRequestMsg.get_nodes (StateResponseMsg.nodes vs) =
      (v : Node) → Member v vs ↔ (nodes v.name ≡ some v)
  Answers _ _ = ⊥

  -- A round either answers, or panics on the request of a node that is not there.
  abbrev pub Fits : StateRequestMsg → Option Served → Type 0
  Fits msg (some r) = Answers msg r.answer
  Fits (StateRequestMsg.get_node n) none = nodes n ≡ none
  Fits _ none = ⊥

  module _ (s : State) (named : s.my_name ≡ my_name) (h : IsValid s)
      (shows : Shows tasks nodes (some s)) where
    listed-AreIn : (k : TaskState) → AreIn k (TaskList.get_tasks_with_state k s.task_list)
    listed-AreIn k t =
        let m = member-get_tasks_with_state t k s.task_list h.tasks in
        (λ i. (sym (shows.0 t.name) ∙ (m.0 i).0, (m.0 i).1), λ p. m.1 (shows.0 t.name ∙ p.0, p.1))

    name_is_by_id : (id : String) → IsNameById id (TaskList.get_task_name_by_id id s.task_list)
    name_is_by_id id = elim (get_task_name_by_id-Found id s.task_list h.tasks) [
      | inl (t, stored, matches, same) ↦ inl (t, sym (shows.0 t.name) ∙ stored, matches, same)
      | inr (same, none_matches) ↦ inr (same, λ t e. none_matches t (shows.0 t.name ∙ e))
    ]

    get_node_answers :
        (n : String) → Fits (StateRequestMsg.get_node n) (Handlers.handle_get_node s n)
    unfolding Handlers.handle_get_node
    get_node_answers n = elim (Option-cases (NodeList.get_node n s.node_list)) [
      | inl e ↦ rw (e, Handlers.handle_get_node) (sym (shows.1 n) ∙ e)
      | inr (v, e) ↦ rw (e, Handlers.handle_get_node) (sym (shows.1 n) ∙ e)
    ]

    nodes_are_all : (v : Node) → Member v (NodeList.get_nodes s.node_list) ↔ (nodes v.name ≡ some v)
    nodes_are_all v =
        let m = NodeView.member-get_nodes s.node_list h.nodes v in
        (λ i. sym (shows.1 v.name) ∙ m.0 i, λ p. m.1 (shows.1 v.name ∙ p))

    dispatch-Fits : (now : ℤ) (msg : StateRequestMsg) → Fits msg (dispatch now s msg)
    unfolding dispatch Handlers.handle_ping Handlers.handle_get_task_state
        Handlers.handle_get_task_ip Handlers.handle_get_task_name_by_id
        Handlers.handle_update_task_state Handlers.handle_update_task_node_name
        Handlers.handle_update_task_info Handlers.handle_update_task_last_update
        Handlers.handle_start_task Handlers.handle_restart_task
        Handlers.handle_get_is_restartable_task Handlers.handle_remove_task_by_name
        Handlers.handle_get_requested_tasks Handlers.handle_get_running_tasks
        Handlers.handle_get_restart_tasks Handlers.handle_add_node
        Handlers.handle_get_is_node_active Handlers.handle_update_node
        Handlers.handle_set_node_inactive Handlers.handle_get_nodes TaskList.get_task_state
        TaskList.get_task NodeList.is_node_active NodeList.get_node
    dispatch-Fits now (StateRequestMsg.get_task_state n) = rw (sym (shows.0 n)) (refl)
    dispatch-Fits now (StateRequestMsg.get_task_ip n) = rw (sym (shows.0 n)) (refl)
    dispatch-Fits now (StateRequestMsg.get_task_name_by_id id) = name_is_by_id id
    dispatch-Fits now (StateRequestMsg.get_is_restartable_task n) =
        rw (sym (shows.0 n), sym named) refl
    dispatch-Fits now StateRequestMsg.get_requested_tasks = listed-AreIn TaskState.requested
    dispatch-Fits now StateRequestMsg.get_running_tasks = listed-AreIn TaskState.running
    dispatch-Fits now StateRequestMsg.get_restart_tasks = listed-AreIn TaskState.restart
    dispatch-Fits now (StateRequestMsg.get_is_node_active n) = rw (sym (shows.1 n)) (refl)
    dispatch-Fits now (StateRequestMsg.get_node n) = get_node_answers n
    dispatch-Fits now StateRequestMsg.get_nodes = nodes_are_all
    dispatch-Fits now _ = tt

-- No message changes the name under which the program runs.
NamedIfAlive : String → Option State → Type 0
NamedIfAlive my_name none = Unit
NamedIfAlive my_name (some s) = s.my_name ≡ my_name

handle_get_node-my_name :
    (s : State) (n : String) → NamedIfAlive s.my_name (next_state (Handlers.handle_get_node s n))
unfolding Handlers.handle_get_node NamedIfAlive
handle_get_node-my_name s n = ground arith

dispatch-my_name :
    (now : ℤ) (s : State) (msg : StateRequestMsg)
    → NamedIfAlive s.my_name (next_state (dispatch now s msg))
unfolding NamedIfAlive dispatch Handlers.handle_ping Handlers.handle_get_task_state
    Handlers.handle_get_task_ip Handlers.handle_get_task_name_by_id
    Handlers.handle_update_task_state Handlers.handle_update_task_node_name
    Handlers.handle_update_task_info Handlers.handle_update_task_last_update
    Handlers.handle_start_task Handlers.handle_restart_task Handlers.handle_get_is_restartable_task
    Handlers.handle_remove_task_by_name Handlers.handle_get_requested_tasks
    Handlers.handle_get_running_tasks Handlers.handle_get_restart_tasks Handlers.handle_add_node
    Handlers.handle_get_is_node_active Handlers.handle_update_node Handlers.handle_set_node_inactive
    Handlers.handle_get_nodes
dispatch-my_name now s (StateRequestMsg.get_node n) = handle_get_node-my_name s n
dispatch-my_name now s _ = refl

serve_all-my_name :
    (msgs : List (ℤ × StateRequestMsg)) (my_name : String) (s : Option State)
    → NamedIfAlive my_name s
    → NamedIfAlive my_name (serve_all msgs s)
unfolding serve_all NamedIfAlive
serve_all-my_name [] my_name none h = tt
serve_all-my_name (e ∷ msgs) my_name none h = tt
serve_all-my_name [] my_name (some s) h = h
serve_all-my_name ((now, msg) ∷ msgs) my_name (some s) h =
    serve_all-my_name msgs my_name (next_state (dispatch now s msg))
      (subst (λ n. NamedIfAlive n (next_state (dispatch now s msg))) h (dispatch-my_name now s msg))

pub start_state-Shows :
    (master_ip my_name : String)
    → Shows (λ _. none) (λ _. none) (some (start_state master_ip my_name))
unfolding start_state TaskList.get_task NodeList.get_node get
start_state-Shows master_ip my_name = (λ n. refl, λ n. refl)

module _ (master_ip my_name : String) (msgs : List (ℤ × StateRequestMsg)) where
  abbrev task_of : String → Option Task
  task_of n = task_history msgs n none

  abbrev node_of : String → Option Node
  node_of n = node_history msgs n none

  -- Once any messages have been served from the start, the answer to the next one, whatever it is,
  -- is fixed by the tasks and nodes that the histories of their names leave: a state, an address, a
  -- permission to restart or an activity is that of the name asked for, the lists for a state and
  -- that of all nodes have exactly the entries there are, a name found by id is that of a task with
  -- such an id; and the round panics only on the request of a node that the history of its name
  -- does not leave.
  pub serve_all-Fits :
      (s : State)
      → serve_all msgs (some (start_state master_ip my_name)) ≡ some s
      → (now : ℤ) (msg : StateRequestMsg) → Fits my_name task_of node_of msg (dispatch now s msg)
  unfolding NamedIfAlive start_state
  serve_all-Fits s reached now msg =
      let start = some (start_state master_ip my_name) in
      let named = serve_all-my_name msgs my_name start refl in
      let valid = serve_all-IsValid msgs start (start_state-IsValid master_ip my_name) in
      let shows =
        serve_all-Shows msgs start (λ _. none) (λ _. none) (start_state-Shows master_ip my_name) in
      dispatch-Fits my_name task_of node_of s (subst (NamedIfAlive my_name) reached named)
        (subst IsValidIfAlive reached valid) (subst (Shows task_of node_of) reached shows) now msg
