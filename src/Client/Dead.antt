-- ===== src/Client/Dead.antt =====
-- What becomes of the other threads once the serving thread of src/state/state.rs has panicked.
use torc_scheduler.Client.{
  World, Event, served, clock, poisoning, Outcome, ok, panicked, Exec, continue, after_round, round,
  ◌>>=◌, call, deliver, interfere, yield,
}
use torc_scheduler.Client.Quiet.{IsQuiet, Runs, yield-IsQuiet, answer_of}
use torc_scheduler.Collaborator.{Effect}
use torc_scheduler.Prelude.{suc, ◌≡◌, ap, ◌∙◌, Option, none, List, [], ◌∷◌}
use torc_scheduler.Prelude.Int.{ℤ}
use torc_scheduler.Server.{State, StateRequestMsg, StateResponseMsg}
use torc_scheduler.Server.Serve.{dispatch}

-- The run panics, and the serving thread is gone when it does.
pub record Dies {A : Type 0} (m : Exec A) (w : World) : Type 0 where
  pub outcome : (m w).0 ≡ panicked
  pub server : (m w).1.server ≡ none

deliver-none : (msg : StateRequestMsg) (w : World) → w.server ≡ none → deliver msg w ≡ (none, w)
unfolding deliver
deliver-none msg w e = ap (λ o. round msg o w) e

interfere-none :
    (events : List Event) (w : World) → w.server ≡ none → (interfere events w).server ≡ none
unfolding interfere
interfere-none [] w e = e
interfere-none (served msg ∷ events) w e =
    interfere-none events (deliver msg w).1
      (ap (λ (p : Option StateResponseMsg × World). p.1.server) (deliver-none msg w e) ∙ e)
interfere-none (clock t ∷ events) w e = interfere-none events (record w { now = t }) e
interfere-none (poisoning m ∷ events) w e =
    interfere-none events (record w { poisoned = m ∷ w.poisoned }) e

-- Once the serving thread is gone, a thread that sends it a message panics, and it stays gone,
-- whatever the other threads do meanwhile.
pub call-Dies : (msg : StateRequestMsg) (w : World) → w.server ≡ none → Dies (call msg) w
unfolding call yield
call-Dies msg w e =
    let w1 : World = interfere (w.env.events w.turn) (record w { turn = suc w.turn }) in
    let gone : w1.server ≡ none =
      interfere-none (w.env.events w.turn) (record w { turn = suc w.turn }) e in
    let answered : call msg w ≡ (panicked, w1) = ap answer_of (deliver-none msg w1 gone) in
    record {
      outcome = ap (λ (p : Outcome StateResponseMsg × World). p.0) answered;
      server = ap (λ (p : Outcome StateResponseMsg × World). p.1.server) answered ∙ gone;
    }

-- A message whose handler panics takes the thread that sent it along.
pub call_fatal :
    (now : ℤ) (s : State) (msg : StateRequestMsg) (w : World)
    → IsQuiet now s w
    → dispatch now s msg ≡ none
    → Dies (call msg) w
unfolding call deliver
call_fatal now s msg w q e =
    let w1 : World = record w { turn = suc w.turn } in
    let answered : call msg w ≡ (panicked, record w1 { server = none }) =
      ap (λ v. answer_of (deliver msg v)) (yield-IsQuiet now s w q)
      ∙ ap (λ o. answer_of (round msg o w1)) q.serving
      ∙ ap (λ t. answer_of (after_round w1 (dispatch t s msg))) q.time
      ∙ ap (λ d. answer_of (after_round w1 d)) e in
    record {
      outcome = ap (λ (p : Outcome StateResponseMsg × World). p.0) answered;
      server = ap (λ (p : Outcome StateResponseMsg × World). p.1.server) answered;
    }

module _ {A B : Type 0} (m : Exec A) (f : A → Exec B) (w : World) where
  pub Dies-bind : Dies m w → Dies (m >>= f) w
  Dies-bind d = record {
    outcome = ap (λ r. (continue r f (m w).1).0) d.outcome;
    server = ap (λ r. (continue r f (m w).1).1.server) d.outcome ∙ d.server;
  }

  pub Dies-after : (a : A) (w1 : World) → m w ≡ (ok a, w1) → Dies (f a) w1 → Dies (m >>= f) w
  Dies-after a w1 e d = record {
    outcome = ap (λ (p : Outcome A × World). (continue p.0 f p.1).0) e ∙ d.outcome;
    server = ap (λ (p : Outcome A × World). (continue p.0 f p.1).1.server) e ∙ d.server;
  }

-- The same after a run in a quiet environment.
pub Dies-Runs :
    {A B : Type 0} (now : ℤ) (m : Exec A) (f : A → Exec B) (s s1 : State) (a : A) (es : List Effect)
    (w : World)
    → IsQuiet now s w
    → Runs now m s a es s1
    → ((w1 : World) → IsQuiet now s1 w1 → Dies (f a) w1)
    → Dies (m >>= f) w
Dies-Runs now m f s s1 a es w q r dies =
    let (w1, ran, _, q1, _) = r.at w q in Dies-after m f w a w1 ran (dies w1 q1)
