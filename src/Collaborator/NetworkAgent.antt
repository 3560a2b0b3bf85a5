-- ===== src/Collaborator/NetworkAgent.antt =====
-- src/collaborator/network_agent: dispatch/client.rs with the two agents behind it,
-- fboss/client.rs and snaproute/client.rs.
mod Fboss
mod Snaproute
pub mod Routes
use torc_scheduler.Collaborator.{Effect}
use torc_scheduler.Prelude.{
  String, List, [], ◌∷◌, concat, is_empty, starts_with, ◌==◌, if◌then◌else◌,
}

-- A route to one address.
abbrev pub host_route : String → String
host_route ip = concat (ip ∷ "/32" ∷ [])

unfoldable pub reset_fib : String → String → List Effect
unfolding Fboss.reset_fib Snaproute.reset_fib
reset_fib agent_type connection =
    if agent_type == "fboss"
    then Fboss.reset_fib connection
    else if agent_type == "snaproute"
    then Snaproute.reset_fib connection
    else []

unfoldable pub add_route : String → String → String → String → List Effect
unfolding Fboss.add_route Snaproute.add_route
add_route agent_type connection route_to route_via =
    if is_empty route_via
    then []
    else if starts_with connection route_to
    then []
    else if agent_type == "fboss"
    then Fboss.add_route connection (host_route route_to) route_via
    else if agent_type == "snaproute"
    then Snaproute.add_route connection (host_route route_to) route_via
    else []

unfoldable pub delete_route : String → String → String → List Effect
unfolding Fboss.delete_route Snaproute.delete_route
delete_route agent_type connection route_to =
    if is_empty route_to
    then []
    else if agent_type == "fboss"
    then Fboss.delete_route connection (host_route route_to)
    else if agent_type == "snaproute"
    then Snaproute.delete_route connection (host_route route_to)
    else []
