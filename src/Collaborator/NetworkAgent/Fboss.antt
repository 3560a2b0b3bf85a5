-- ===== src/Collaborator/NetworkAgent/Fboss.antt =====
-- src/collaborator/network_agent/fboss/client.rs
use torc_scheduler.Collaborator.{Effect, fboss_sync_routes, fboss_add_route, fboss_delete_route}
use torc_scheduler.Prelude.{String, List, [], ◌∷◌}

unfoldable pub reset_fib : String → List Effect
reset_fib connection = fboss_sync_routes connection ∷ []

unfoldable pub add_route : String → String → String → List Effect
add_route connection route_to route_via = fboss_add_route connection route_to route_via ∷ []

unfoldable pub delete_route : String → String → List Effect
delete_route connection route_to = fboss_delete_route connection route_to ∷ []
