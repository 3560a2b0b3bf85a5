-- ===== src/Client/Asked.antt =====
-- What the answer to a message tells of the serving thread, in any environment.
use torc_scheduler.Client.{World, ok, unwrap, call, deliver, round, after_round, yield}
use torc_scheduler.Client.Ends.{pure-eq-ok}
use torc_scheduler.Prelude.{◌≡◌, refl, Option, none, some}
use torc_scheduler.Server.{State, StateRequestMsg, StateResponseMsg, Served}
use torc_scheduler.Server.Serve.{dispatch}

-- The state that was asked, once the environment has had its turn, and the round that answered.
pub record Asked (msg : StateRequestMsg) (answer : StateResponseMsg) (w : World) : Type 0 where
  pub state : State
  pub serving : (yield w).server ≡ some state
  pub served : Served
  pub ran : dispatch (yield w).now state msg ≡ some served
  pub answered : served.answer ≡ answer

pub call-Asked :
    (msg : StateRequestMsg) (answer : StateResponseMsg) (w w' : World)
    → call msg w ≡ (ok answer, w')
    → Asked msg answer w
unfolding call deliver
call-Asked msg answer w w' e = from_state v.server refl e
  where
    v : World
    v = yield w

    from_round :
        (s : State) (d : Option Served)
        → v.server ≡ some s
        → dispatch v.now s msg ≡ d
        → unwrap (after_round v d).0 (after_round v d).1 ≡ (ok answer, w')
        → Asked msg answer w
    from_round s none here ran e = cc
    from_round s (some r) here ran e = record {
      state = s;
      serving = here;
      served = r;
      ran = ran;
      answered = (pure-eq-ok r.answer answer _ w' e).0;
    }

    from_state :
        (o : Option State)
        → v.server ≡ o
        → unwrap (round msg o v).0 (round msg o v).1 ≡ (ok answer, w')
        → Asked msg answer w
    from_state none here e = cc
    from_state (some s) here e = from_round s (dispatch v.now s msg) here refl e
