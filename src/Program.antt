-- ===== src/Program.antt =====
-- The whole program: the threads that `main` of src/main.rs and `StateManager::new` of
-- src/state/state.rs start, each of which goes on until it panics. A step is one round of one thread,
-- one callback or one request; the messages of the others that come in between are the environment's.
pub mod Messages
pub mod Rounds
pub mod Callbacks
pub mod Requests
pub mod Reached
pub mod Ended
pub mod Over
pub mod Lost
use torc_scheduler.Api.{JsonCodec}
use torc_scheduler.Api.Routes.{Method, Request, RouterLibrary, respond, run_api}
use torc_scheduler.Background.{CleanConfig, sync_round, clean_round}
use torc_scheduler.Client.{World, Outcome, ok, panicked, Exec, pure, ◌>>=◌, ◌>>◌}
use torc_scheduler.Client.StateManager.{StateManager, TaskConfig}
use torc_scheduler.Config.{YamlLibrary}
use torc_scheduler.Config.Settings.{DnsEntry}
use torc_scheduler.Health.{prepare, health_round}
use torc_scheduler.Mesos.{Offer, TaskStatus}
use torc_scheduler.Prelude.{ℕ, String, ◌≡◌, Bool, true, false, Option, List}
use torc_scheduler.Prelude.Int.{ℤ}
use torc_scheduler.Scheduler
use torc_scheduler.Scheduler.Offers
use torc_scheduler.Scheduler.Update
use torc_scheduler.Scheduler.Update.{JsonLibrary}
use torc_scheduler.Start.{run_scheduler}

-- How far a thread has come. `looping a` is its endless loop, which reads `a`.
pub data Phase (A : Type 0) : Type 0 where
  starting : Phase A
  looping : A → Phase A
  stopped : Phase A

abbrev pub enters : {A : Type 0} → Outcome A → Phase A
enters (ok a) = Phase.looping a
enters panicked = Phase.stopped

-- A round of the loop.
abbrev pub stays : {A : Type 0} → A → Outcome (Unit {0}) → Phase A
stays a (ok u) = Phase.looping a
stays a panicked = Phase.stopped

-- The serving thread is in the world. What the health checker reads are its services and entries.
pub record Program : Type 0 where
  pub world : World
  pub api : Phase (Unit {0})
  pub scheduler : Phase (Unit {0})
  pub health : Phase (List TaskConfig × List DnsEntry)
  pub syncing : Phase (Unit {0})
  pub cleaning : Phase (Unit {0})

-- The end of `main`, once the StateManager is there: three threads are started. Those of the
-- StateManager loop already.
abbrev pub start_threads : World → Program
start_threads w = record {
  world = w;
  api = Phase.starting;
  scheduler = Phase.starting;
  health = Phase.starting;
  syncing = Phase.looping tt;
  cleaning = Phase.looping tt;
}

abbrev pub has_stopped : {A : Type 0} → Phase A → Bool
has_stopped Phase.stopped = true
has_stopped _ = false

-- `health_check_runner.join()`: `main` returns, and with it the process ends, when the health checker
-- has stopped.
abbrev pub is_over : Program → Bool
is_over p = has_stopped p.health

-- The callbacks of `TorcScheduler`.
pub data Callback : Type 0 where
  subscribed : Callback
  offers : List Offer → Callback
  inverse_offers : List String → Callback
  update : TaskStatus → Callback
  rescind : String → Callback
  message : String → String → List ℕ → Callback
  failure : Option String → Option String → Option ℤ → Callback
  error : String → Callback
  heartbeat disconnected : Callback

module _ (json : JsonLibrary) where
  abbrev pub callback : Callback → Exec (Unit {0})
  callback Callback.subscribed = Scheduler.subscribed
  callback (Callback.offers os) = Offers.offers os
  callback (Callback.inverse_offers ids) = Scheduler.inverse_offers ids
  callback (Callback.update status) = Update.update json status
  callback (Callback.rescind id) = Scheduler.rescind id
  callback (Callback.message slave executor bytes) = Scheduler.message slave executor bytes
  callback (Callback.failure slave executor status) = Scheduler.failure slave executor status
  callback (Callback.error text) = Scheduler.error text
  callback Callback.heartbeat = Scheduler.heartbeat
  callback Callback.disconnected = Scheduler.disconnected

-- What the program is run with: the libraries, and what it has read of its configuration.
pub record Setting : Type 1 where
  pub yaml : YamlLibrary
  pub json : JsonLibrary
  pub codec : JsonCodec
  pub router : RouterLibrary
  pub sm : StateManager
  pub config : yaml.Yaml
  pub clean_config : CleanConfig

-- The loop over the callbacks is entered once the scheduler has been started.
abbrev pub scheduler_enters : StateManager → Exec (Unit {0})
scheduler_enters sm = do run_scheduler sm; pure tt

module _ (x : Setting) where
  -- A thread takes a step only while the process lives. A handler that panics takes no thread of the
  -- program with it.
  pub data Step : Program → Program → Type 0 where
    api_starts :
        (p : Program)
        → is_over p ≡ false
        → p.api ≡ Phase.starting
        → Step p (let (r, w) = run_api x.sm p.world in record p { world = w; api = enters r })
    answers :
        (p : Program) (method : Method) (path : String) (request : Request)
        → is_over p ≡ false
        → p.api ≡ Phase.looping tt
        → Step p (record p {
          world = (respond x.codec x.yaml x.config x.sm x.router method path request p.world).1;
        })
    scheduler_starts :
        (p : Program)
        → is_over p ≡ false
        → p.scheduler ≡ Phase.starting
        → Step p (
            let (r, w) = scheduler_enters x.sm p.world in
            record p { world = w; scheduler = enters r })
    calls_back :
        (p : Program) (c : Callback)
        → is_over p ≡ false
        → p.scheduler ≡ Phase.looping tt
        → Step p
            (let (r, w) = callback x.json c p.world in record p { world = w; scheduler = enters r })
    health_starts :
        (p : Program)
        → is_over p ≡ false
        → p.health ≡ Phase.starting
        → Step p (
            let (r, w) = prepare x.yaml x.sm x.config p.world in
            record p { world = w; health = enters r })
    checks :
        (p : Program) (tasks : List TaskConfig) (entries : List DnsEntry)
        → is_over p ≡ false
        → p.health ≡ Phase.looping (tasks, entries)
        → Step p (
            let (r, w) = health_round x.sm tasks entries p.world in
            record p { world = w; health = stays (tasks, entries) r })
    syncs :
        (p : Program)
        → is_over p ≡ false
        → p.syncing ≡ Phase.looping tt
        → Step p
            (let (r, w) = sync_round x.sm p.world in record p { world = w; syncing = enters r })
    cleans :
        (p : Program)
        → is_over p ≡ false
        → p.cleaning ≡ Phase.looping tt
        → Step p (
            let (r, w) = clean_round x.sm x.clean_config p.world in
            record p { world = w; cleaning = enters r })

  -- Any number of steps, in any order.
  pub data Reaches : Program → Program → Type 0 where
    here : (p : Program) → Reaches p p
    after : {p q r : Program} → Reaches p q → Step q r → Reaches p r
