-- ===== src/Scheduler.antt =====
-- src/scheduler/scheduler_impl.rs: the callbacks of `TorcScheduler`. What they print is left out.
pub mod Started
pub mod Container
pub mod Offers
pub mod Update
pub mod Parameters
use torc_scheduler.Client.{World, Exec, pure, panic, ◌>>=◌, ◌>>◌, call_or_panic}
use torc_scheduler.Client.StateManager.{set_mesos_client}
use torc_scheduler.Collaborator.{reconcile, decline}
use torc_scheduler.Mesos.{Offer}
use torc_scheduler.Prelude.{ℕ, String, true, Option, List, map}
use torc_scheduler.Prelude.Int.{ℤ}

unfoldable pub subscribed : Exec (Unit {0})
unfolding set_mesos_client
subscribed = do set_mesos_client true; call_or_panic reconcile

-- Inverse offers are declined, by their ids.
unfoldable pub inverse_offers : List String → Exec (Unit {0})
inverse_offers offer_ids = call_or_panic (decline offer_ids)

-- The callbacks that only print.
unfoldable pub rescind : String → Exec (Unit {0})
rescind offer_id = pure tt

unfoldable pub message : String → String → List ℕ → Exec (Unit {0})
message slave_id executor_id data_bytes = pure tt

unfoldable pub failure : Option String → Option String → Option ℤ → Exec (Unit {0})
failure slave_id executor_id status = pure tt

unfoldable pub error : String → Exec (Unit {0})
error text = pure tt

unfoldable pub heartbeat : Exec (Unit {0})
heartbeat = pure tt

unfoldable pub disconnected : Exec (Unit {0})
disconnected = pure tt
