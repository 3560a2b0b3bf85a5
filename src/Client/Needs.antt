-- ===== src/Client/Needs.antt =====
-- Actions that panic only once the serving thread has.
use torc_scheduler.Client.{
  World, Outcome, ok, panicked, Exec, pure, unwrap, continue, ◌>>=◌, call, deliver, round,
  after_round, yield, read_clock, emit,
}
use torc_scheduler.Client.Closed.{Closed}
use torc_scheduler.Collaborator.{Effect}
use torc_scheduler.Prelude.{◌≡◌, refl, Option, none, some, List}
use torc_scheduler.Server.{State, StateRequestMsg, StateResponseMsg, Served}
use torc_scheduler.Server.Serve.{dispatch}

-- If the action panics, the serving thread is gone.
pub record NeedsServer {A : Type 0} (m : Exec A) : Type 0 where
  pub at : (w : World) → (m w).0 ≡ panicked → (m w).1.server ≡ none

pub NeedsServer-pure : {A : Type 0} (a : A) → NeedsServer (pure a)
NeedsServer-pure a = record { at = λ w e. cc }

pub NeedsServer-bind :
    {A B : Type 0} (m : Exec A) (f : A → Exec B)
    → NeedsServer m
    → ((a : A) → NeedsServer (f a))
    → NeedsServer (m >>= f)
NeedsServer-bind {A} {B} m f p q = record { at = λ w. go (m w) (p.at w) }
  where
    go :
        (r : Outcome A × World)
        → (r.0 ≡ panicked → r.1.server ≡ none)
        → (continue r.0 f r.1).0 ≡ panicked
        → (continue r.0 f r.1).1.server ≡ none
    go (ok a, w) h e = (q a).at w e
    go (panicked, w) h e = h refl

unanswered :
    (msg : StateRequestMsg) (w : World) → (deliver msg w).0 ≡ none → (deliver msg w).1.server ≡ none
unfolding deliver
unanswered msg w e = go w.server refl e
  where
    after : (r : Option Served) → (after_round w r).0 ≡ none → (after_round w r).1.server ≡ none
    after none e = refl
    after (some r) e = cc

    go :
        (o : Option State)
        → w.server ≡ o
        → (round msg o w).0 ≡ none
        → (round msg o w).1.server ≡ none
    go none here e = here
    go (some s) here e = after (dispatch w.now s msg) e

pub NeedsServer-call : (msg : StateRequestMsg) → NeedsServer (call msg)
unfolding call
NeedsServer-call msg = record { at = λ w. go (deliver msg (yield w)) (unanswered msg (yield w)) }
  where
    go :
        (d : Option StateResponseMsg × World)
        → (d.0 ≡ none → d.1.server ≡ none)
        → (unwrap d.0 d.1).0 ≡ panicked
        → (unwrap d.0 d.1).1.server ≡ none
    go (none, w) h e = h refl
    go (some answer, w) h e = cc

pub NeedsServer-read_clock : NeedsServer read_clock
unfolding read_clock
NeedsServer-read_clock = record { at = λ w e. cc }

pub NeedsServer-emit : (es : List Effect) → NeedsServer (emit es)
unfolding emit
NeedsServer-emit es = record { at = λ w e. cc }

abbrev pub needing : Closed
needing = record {
  Holds = λ m. NeedsServer m;
  of_pure = NeedsServer-pure;
  of_bind = NeedsServer-bind;
  of_call = NeedsServer-call;
  of_read_clock = NeedsServer-read_clock;
  of_emit = NeedsServer-emit;
}
