-- ===== src/Collaborator.antt =====
-- src/collaborator: what the program asks of other systems, as the calls of third-party clients
-- that it makes, in order. What such a call does outside is not modelled; whether one that can
-- fail succeeds is decided by the environment (Client.antt).
pub mod Consul
pub mod NetworkAgent
pub mod Commands
use torc_scheduler.Mesos.{TaskInfo}
use torc_scheduler.Prelude.{String, List}

pub data Effect : Type 0 where
  -- `CLIENT.post(address).body(body).send()` of hyper
  post : String → String → Effect
  -- the `api` of the crates torc_fboss_client and torc_snaproute_client
  fboss_sync_routes : String → Effect
  fboss_add_route : String → String → String → Effect
  fboss_delete_route : String → String → Effect
  snaproute_reset_routes : String → Effect
  snaproute_add_route : String → String → String → Effect
  snaproute_delete_route : String → String → Effect
  -- the `SchedulerClient` of the crate mesos
  reconcile : Effect
  decline : List String → Effect
  launch : List String → List TaskInfo → Effect
  kill : String → Effect
