-- ===== src/Collaborator/NetworkAgent/Routes.antt =====
-- Which routes src/collaborator/network_agent/dispatch/client.rs asks an agent for.
use torc_scheduler.Collaborator.{
  Effect, fboss_add_route, fboss_delete_route, snaproute_add_route, snaproute_delete_route,
}
use torc_scheduler.Collaborator.NetworkAgent.{add_route, delete_route, host_route}
use torc_scheduler.Prelude.{
  String, ◌≡◌, false, ◌||◌, [], ◌∷◌, arith, is_empty, starts_with, ◌==◌, if◌then◌else◌,
}

-- The agents that the dispatcher knows.
pub data Agent : Type 0 where
  fboss snaproute : Agent

abbrev pub agent_name : Agent → String
agent_name fboss = "fboss"
agent_name snaproute = "snaproute"

abbrev pub added : Agent → String → String → String → Effect
added fboss = fboss_add_route
added snaproute = snaproute_add_route

abbrev pub deleted : Agent → String → String → Effect
deleted fboss = fboss_delete_route
deleted snaproute = snaproute_delete_route

-- A known agent is asked for one route to the single address, unless there is no next hop or the
-- address begins the agent's own connection.
pub add_route_known :
    (a : Agent) (connection to via : String)
    → add_route (agent_name a) connection to via ≡ (
        if is_empty via || starts_with connection to
        then []
        else added a connection (host_route to) via ∷ [])
unfolding add_route
add_route_known fboss connection to via = ground arith
add_route_known snaproute connection to via = ground arith

-- A known agent is asked to delete the route to the single address, unless the address is empty.
pub delete_route_known :
    (a : Agent) (connection to : String)
    → delete_route (agent_name a) connection to
      ≡ (if is_empty to then [] else deleted a connection (host_route to) ∷ [])
unfolding delete_route
delete_route_known fboss connection to = ground arith
delete_route_known snaproute connection to = ground arith

-- No agent is called for a type that is neither of the two.
pub routes_unknown :
    (agent_type connection to via : String)
    → (agent_type == "fboss") ≡ false
    → (agent_type == "snaproute") ≡ false
    → (add_route agent_type connection to via ≡ []) × (delete_route agent_type connection to ≡ [])
unfolding add_route delete_route
routes_unknown agent_type connection to via not_fboss not_snaproute = ground arith
