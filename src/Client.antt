-- ===== src/Client.antt =====
-- What a thread of the program does, between its messages to the serving thread. The other threads
-- and the outside world are the environment: before each message and each reading of the clock it
-- may serve any messages of other threads, set the clock and poison mutexes, and it decides which
-- calls of other systems succeed. A theorem that holds in every environment holds for every interleaving.
pub mod StateManager
pub mod Quiet
pub mod Dead
pub mod Stored
pub mod Accepting
pub mod Total
pub mod Announce
pub mod Fatal
pub mod Ends
pub mod Lock
pub mod Closed
pub mod Moves
pub mod Needs
pub mod Asked
pub mod Answerless
use torc_scheduler.Collaborator.{Effect}
use torc_scheduler.Prelude.{
  ℕ, suc, String, Bool, true, false, Option, none, some, List, [], ◌∷◌, ◌++◌, length, if◌then◌else◌,
}
use torc_scheduler.Prelude.Int.{ℤ}
use torc_scheduler.Server.{State, StateRequestMsg, StateResponseMsg, Served}
use torc_scheduler.Server.Serve.{dispatch}

pub data Event : Type 0 where
  served : StateRequestMsg → Event
  clock : ℤ → Event
  poisoning : String → Event

-- `events n` come before the n-th interaction of the thread; `accepts n` says whether the n-th call
-- of another system succeeds.
pub record Environment : Type 0 where
  pub events : ℕ → List Event
  pub accepts : ℕ → Bool

-- `server` is the state of the serving thread, `none` once it has panicked. `has_client` says
-- whether the global `MESOS` of src/collaborator/mesos/client.rs is set. `poisoned` are the mutexes,
-- by the names of their variables, under which a thread has panicked.
pub record World : Type 0 where
  pub server : Option State
  pub now : ℤ
  pub has_client : Bool
  pub poisoned : List String
  pub trace : List Effect
  pub turn : ℕ
  pub env : Environment

pub data Outcome (A : Type 0) : Type 0 where
  ok : A → Outcome A
  panicked : Outcome A

-- What was done before a panic stays done.
abbrev pub Exec : Type 0 → Type 0
Exec A = World → Outcome A × World

module _ {A : Type 0} where
  abbrev pub pure : A → Exec A
  pure a w = (ok a, w)

  abbrev pub panic : Exec A
  panic w = (panicked, w)

  -- `unwrap()`
  abbrev pub unwrap : Option A → Exec A
  unwrap none = panic
  unwrap (some a) = pure a

module _ {A B : Type 0} where
  abbrev pub continue : Outcome A → (A → Exec B) → Exec B
  continue (ok a) f w = f a w
  continue panicked f w = (panicked, w)

  infixl 5 ◌>>=◌ ◌>>◌
  abbrev pub ◌>>=◌ : Exec A → (A → Exec B) → Exec B
  ◌>>=◌ m f w = let (r, w') = m w in continue r f w'

  abbrev pub ◌>>◌ : Exec A → Exec B → Exec B
  m >> k = m >>= λ _. k

-- The serving thread takes one message: its answer, if it lives to give one.
abbrev pub after_round : World → Option Served → Option StateResponseMsg × World
after_round w none = (none, record w { server = none })
after_round w (some r) =
    (some r.answer, record w { server = some r.state; trace = w.trace ++ r.effects })

abbrev pub round : StateRequestMsg → Option State → World → Option StateResponseMsg × World
round msg none w = (none, w)
round msg (some s) w = after_round w (dispatch w.now s msg)

unfoldable pub deliver : StateRequestMsg → World → Option StateResponseMsg × World
deliver msg w = round msg w.server w

unfoldable pub happens : Event → World → World
unfolding deliver
happens (served msg) w = (deliver msg w).1
happens (clock t) w = record w { now = t }
happens (poisoning m) w = record w { poisoned = m ∷ w.poisoned }

unfoldable pub interfere : List Event → World → World
unfolding happens
interfere [] w = w
interfere (e ∷ events) w = interfere events (happens e w)

-- The environment's turn before an interaction.
unfoldable pub yield : World → World
unfolding interfere
yield w = interfere (w.env.events w.turn) (record w { turn = suc w.turn })

-- `sender.send(msg).unwrap(); receiver.recv().unwrap()`: both panic if the serving thread is gone.
unfoldable pub call : StateRequestMsg → Exec StateResponseMsg
unfolding yield deliver
call msg w = let (answer, w') = deliver msg (yield w) in unwrap answer w'

-- `UTC::now().timestamp()`
unfoldable pub read_clock : Exec ℤ
unfolding yield
read_clock w = let w' = yield w in (ok w'.now, w')

-- Calls of other systems that cannot fail.
unfoldable pub emit : List Effect → Exec (Unit {0})
emit effects w = (ok tt, record w { trace = w.trace ++ effects })

-- A call of another system that may fail; whether it did is the result.
unfoldable pub try_call : Effect → Exec Bool
try_call effect w =
    (ok (w.env.accepts (length w.trace)), record w { trace = w.trace ++ effect ∷ [] })

-- The same with `.unwrap()` on the result.
unfoldable pub call_or_panic : Effect → Exec (Unit {0})
unfolding try_call
call_or_panic effect = do accepted ← try_call effect; if accepted then pure tt else panic

-- `for x in xs { body }`
unfoldable pub for_each : {A : Type 0} → (A → Exec (Unit {0})) → List A → Exec (Unit {0})
for_each body [] = pure tt
for_each body (x ∷ xs) = body x >> for_each body xs

-- A test with nothing to do otherwise.
abbrev pub when : Bool → Exec (Unit {0}) → Exec (Unit {0})
when b action = if b then action else pure tt
