-- ===== src/Collaborator/Consul.antt =====
-- src/collaborator/consul/client.rs. The result of the post is dropped, so no call can fail.
use torc_scheduler.Collaborator.{Effect, post}
use torc_scheduler.Prelude.{String, List, [], ◌∷◌, concat}
use torc_scheduler.Records.{Task}

register : String → String → String → List Effect
register master_ip name ip =
    let address = concat ("http://" ∷ master_ip ∷ ":8500/v1/agent/service/register" ∷ []) in
    let description = concat ("{\"Name\": \"" ∷ name ∷ "\",\"Address\": \"" ∷ ip ∷ "\"}" ∷ []) in
    post address description ∷ []

register_service : String → Task → List Effect
register_service master_ip task = register master_ip task.name task.ip

register_controller : String → String → String → List Effect
register_controller master_ip name ip = register master_ip name ip

unfoldable pub register_running_task : String → Task → List Effect
unfolding register_service register
register_running_task master_ip task = register_service master_ip task

unfoldable pub register_torc_controller : String → String → String → List Effect
unfolding register_controller register
register_torc_controller master_ip name ip = register_controller master_ip name ip

unfoldable pub register_unmanaged_service : String → String → String → List Effect
unfolding register_controller register
register_unmanaged_service master_ip name ip = register_controller master_ip name ip
