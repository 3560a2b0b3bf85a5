-- ===== src/Client/Announce.antt =====
-- What `send_announce_task` of src/state/state.rs does, while no other thread interferes.
use mathlib.Core.List.{append-nil}
use torc_scheduler.Client.{pure, emit}
use torc_scheduler.Client.Quiet.{Runs, Runs-pure, Runs-bind, Runs-request, Runs-emit}
use torc_scheduler.Client.StateManager.{
  StateManager, send_announce_task, announce_new, route_to, request_node, request_task_ip,
  request_task_name_by_id,
}
use torc_scheduler.Collaborator.{Effect}
use torc_scheduler.Collaborator.NetworkAgent.{add_route, delete_route, host_route}
use torc_scheduler.Collaborator.NetworkAgent.Routes.{
  Agent, agent_name, added, deleted, add_route_known, delete_route_known,
}
use torc_scheduler.NodeList
use torc_scheduler.Prelude.{
  String, ◌≡◌, refl, ap, subst, ◌∙◌, false, none, some, List, [], ◌∷◌, ◌++◌, is_empty, starts_with,
  if◌then◌else◌,
}
use torc_scheduler.Prelude.Int.{ℤ}
use torc_scheduler.Records.{Task, Node}
use torc_scheduler.Server.{State, StateRequestMsg, StateResponseMsg}
use torc_scheduler.Server.Handlers
use torc_scheduler.Server.Serve.{dispatch}
use torc_scheduler.TaskList

-- The address of the task that is stored under the name, "" if there is none.
abbrev pub stored_ip : String → State → String
stored_ip n s = elim (TaskList.get_task n s.task_list) [ some t ↦ t.ip | none ↦ "" ]

abbrev pub with_task : Task → State → State
with_task t s = record s { task_list = TaskList.add_new_task t s.task_list }

module _ (sm : StateManager) (now : ℤ) where
  abbrev pub old_route : String → List Effect
  old_route ip =
      if is_empty ip then [] else delete_route sm.network_agent_type sm.network_agent_connection ip

  abbrev pub new_route : Task → Node → List Effect
  new_route t v = add_route sm.network_agent_type sm.network_agent_connection t.ip v.external_ip

  get_node_answer :
      (n : String) (v : Node) (s : State)
      → NodeList.get_node n s.node_list ≡ some v
      → dispatch now s (StateRequestMsg.get_node n)
        ≡ some (record { state = s; answer = StateResponseMsg.node v; effects = [] })
  unfolding dispatch Handlers.handle_get_node
  get_node_answer n v s e = rw (e, Handlers.handle_get_node) refl

  Runs-route_to :
      (t : Task) (v : Node) (s : State) → Runs now (route_to sm t (some v)) s tt (new_route t v) s
  Runs-route_to t v s = Runs-emit now s (new_route t v)

  Runs-old_route :
      (ip : String) (s : State)
      → Runs now
          (if is_empty ip
            then pure tt
            else emit (delete_route sm.network_agent_type sm.network_agent_connection ip))
          s
          tt
          (old_route ip)
          s
  Runs-old_route String.[] s = Runs-pure now tt s
  Runs-old_route (String.◌∷◌ c ip) s = Runs-emit now s _

  -- A task that is not known by its id is stored, whatever stood under its name; its route is asked
  -- for first, and then the route to the address that stood there is given up.
  announce_new_lem :
      (t : Task) (v : Node) (s : State)
      → NodeList.get_node t.node_name s.node_list ≡ some v
      → Runs now
          (announce_new sm t)
          s
          tt
          (new_route t v ++ old_route (stored_ip t.name s))
          (with_task t s)
  unfolding announce_new request_node request_task_ip dispatch Handlers.handle_get_task_ip
      Handlers.handle_start_task
  announce_new_lem t v s e =
      let ip = stored_ip t.name s in
      let s' = with_task t s in
      subst (λ es. Runs now (announce_new sm t) s tt es s')
        (ap (λ es. new_route t v ++ es) (append-nil (old_route ip)))
        (Runs-bind now (request_node t.node_name) _ s s s' (some v) tt [] _
          (Runs-request now _ (StateRequestMsg.get_node t.node_name) s _
            (get_node_answer t.node_name v s e))
          (Runs-bind now (route_to sm t (some v)) _ s s s' tt tt (new_route t v) _
            (Runs-route_to t v s)
            (Runs-bind now (request_task_ip t.name) _ s s s' ip tt [] _
              (Runs-request now _ (StateRequestMsg.get_task_ip t.name) s _ refl)
              (Runs-bind now _ _ s s s' tt tt (old_route ip) [] (Runs-old_route ip s)
                (Runs-request now (λ _. tt) (StateRequestMsg.start_task t) s _ refl)))))

  -- In a quiet environment, announcing a task whose id begins no stored id, on a node that is
  -- known, asks the network agent for the new route, then to give up the route of the address
  -- stored under that name, and stores the task.
  pub send_announce_task_lem :
      (t : Task) (v : Node) (s : State)
      → TaskList.get_task_name_by_id t.id s.task_list ≡ ""
      → NodeList.get_node t.node_name s.node_list ≡ some v
      → Runs now
          (send_announce_task sm t)
          s
          tt
          (new_route t v ++ old_route (stored_ip t.name s))
          (with_task t s)
  unfolding send_announce_task request_task_name_by_id dispatch Handlers.handle_get_task_name_by_id
  send_announce_task_lem t v s unknown e =
      Runs-bind now (request_task_name_by_id t.id) _ s s (with_task t s) "" tt [] _
        (subst (λ n. Runs now (request_task_name_by_id t.id) s n [] s) unknown
          (Runs-request now _ (StateRequestMsg.get_task_name_by_id t.id) s _ refl))
        (announce_new_lem t v s e)

  -- In a quiet environment, a task that comes back under its name and address with an id that
  -- begins no stored id loses its route: an agent of a known type is asked to add the route and
  -- then to delete that same route. The node is known and has an external address, and the task's
  -- address is not empty and does not begin the agent's connection.
  pub announce_same_ip_loses_route :
      (a : Agent) (t old : Task) (v : Node) (s : State)
      → sm.network_agent_type ≡ agent_name a
      → TaskList.get_task_name_by_id t.id s.task_list ≡ ""
      → NodeList.get_node t.node_name s.node_list ≡ some v
      → TaskList.get_task t.name s.task_list ≡ some old
      → old.ip ≡ t.ip
      → is_empty t.ip ≡ false
      → is_empty v.external_ip ≡ false
      → starts_with sm.network_agent_connection t.ip ≡ false
      → Runs now
          (send_announce_task sm t)
          s
          tt
          (added a sm.network_agent_connection (host_route t.ip) v.external_ip
            ∷ deleted a sm.network_agent_connection (host_route t.ip)
            ∷ [])
          (with_task t s)
  announce_same_ip_loses_route a t old v s agent unknown e stored same has_ip has_via remote =
      subst (λ es. Runs now (send_announce_task sm t) s tt es (with_task t s)) both
        (send_announce_task_lem t v s unknown e)
    where
      conn : String
      conn = sm.network_agent_connection

      asked : new_route t v ≡ added a conn (host_route t.ip) v.external_ip ∷ []
      asked =
          ap (λ agent_type. add_route agent_type conn t.ip v.external_ip) agent
          ∙ add_route_known a conn t.ip v.external_ip
          ∙ rw (has_via, remote) refl

      given_up : old_route t.ip ≡ deleted a conn (host_route t.ip) ∷ []
      given_up =
          ap (λ b. if b then [] else delete_route sm.network_agent_type conn t.ip) has_ip
          ∙ ap (λ agent_type. delete_route agent_type conn t.ip) agent
          ∙ delete_route_known a conn t.ip
          ∙ rw has_ip refl

      is_stored : stored_ip t.name s ≡ t.ip
      is_stored = ap (λ o. elim o [ some u ↦ u.ip | none ↦ "" ]) stored ∙ same

      both :
          new_route t v ++ old_route (stored_ip t.name s)
          ≡ added a conn (host_route t.ip) v.external_ip ∷ deleted a conn (host_route t.ip) ∷ []
      both =
          ap (λ es. es ++ old_route (stored_ip t.name s)) asked
          ∙ ap (λ es. added a conn (host_route t.ip) v.external_ip ∷ es)
              (ap old_route is_stored ∙ given_up)
