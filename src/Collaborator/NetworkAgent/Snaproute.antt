-- ===== src/Collaborator/NetworkAgent/Snaproute.antt =====
-- src/collaborator/network_agent/snaproute/client.rs
use torc_scheduler.Collaborator.{
  Effect, snaproute_reset_routes, snaproute_add_route, snaproute_delete_route,
}
use torc_scheduler.Prelude.{String, List, [], ◌∷◌}

unfoldable pub reset_fib : String → List Effect
reset_fib connection = snaproute_reset_routes connection ∷ []

unfoldable pub add_route : String → String → String → List Effect
add_route connection route_to route_via = snaproute_add_route connection route_to route_via ∷ []

unfoldable pub delete_route : String → String → List Effect
delete_route connection route_to = snaproute_delete_route connection route_to ∷ []
