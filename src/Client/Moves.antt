-- ===== src/Client/Moves.antt =====
-- What a thread does to the world, in any environment: the messages that are served meanwhile, its own
-- and those of other threads, and the calls that are made. One rule for each way to build an action.
use mathlib.Core.List.{append-nil, append_assoc}
use torc_scheduler.Client.{
  World, Event, served, clock, poisoning, Outcome, ok, panicked, Exec, pure, panic, unwrap,
  continue, ◌>>=◌, call, deliver, round, after_round, yield, interfere, happens, read_clock, emit,
  try_call, call_or_panic, for_each,
}
use torc_scheduler.Client.Closed.{Closed}
use torc_scheduler.Client.Lock.{locked, enter, unlock, is_poisoned}
use torc_scheduler.Client.StateManager.{set_mesos_client}
use torc_scheduler.Collaborator.{Effect}
use torc_scheduler.Prelude.{
  suc, String, ◌≡◌, refl, sym, ap, ◌∙◌, Bool, true, false, Option, none, some, List, [], ◌∷◌, ◌++◌,
  if◌then◌else◌,
}
use torc_scheduler.Prelude.Int.{ℤ}
use torc_scheduler.Server.{State, StateRequestMsg, Served}
use torc_scheduler.Server.Serve.{dispatch, next_state, serve_all}

-- From one world to a later one: the messages that have been served and the calls that have been made.
pub record Advances (w w' : World) : Type 0 where
  pub msgs : List (ℤ × StateRequestMsg)
  pub calls : List Effect
  pub serving : w'.server ≡ serve_all msgs w.server
  pub made : w'.trace ≡ w.trace ++ calls

pub serve_all-none : (msgs : List (ℤ × StateRequestMsg)) → serve_all msgs none ≡ none
unfolding serve_all
serve_all-none msgs = refl

pub serve_all-append :
    (xs ys : List (ℤ × StateRequestMsg)) (s : Option State)
    → serve_all (xs ++ ys) s ≡ serve_all ys (serve_all xs s)
unfolding serve_all
serve_all-append xs ys none = refl
serve_all-append [] ys (some s) = refl
serve_all-append ((now, msg) ∷ xs) ys (some s) =
    serve_all-append xs ys (next_state (dispatch now s msg))

serve_all-nil : (s : Option State) → s ≡ serve_all [] s
unfolding serve_all
serve_all-nil none = refl
serve_all-nil (some s) = refl

serve_one :
    (now : ℤ) (msg : StateRequestMsg) (s : State) (r : Option Served) (server : Option State)
    → server ≡ some s
    → dispatch now s msg ≡ r
    → next_state r ≡ serve_all ((now, msg) ∷ []) server
unfolding serve_all
serve_one now msg s r server here ran =
    serve_all-nil (next_state r)
    ∙ ap (λ d. serve_all [] (next_state d)) (sym ran)
    ∙ ap (serve_all ((now, msg) ∷ [])) (sym here)

-- Nothing was served and nothing called.
pub Advances-same : (w w' : World) → w'.server ≡ w.server → w'.trace ≡ w.trace → Advances w w'
Advances-same w w' same traced = record {
  msgs = [];
  calls = [];
  serving = same ∙ serve_all-nil w.server;
  made = traced ∙ sym (append-nil w.trace);
}

pub Advances-trans : (w w1 w2 : World) → Advances w w1 → Advances w1 w2 → Advances w w2
Advances-trans w w1 w2 p q = record {
  msgs = p.msgs ++ q.msgs;
  calls = p.calls ++ q.calls;
  serving =
      q.serving ∙ ap (serve_all q.msgs) p.serving ∙ sym (serve_all-append p.msgs q.msgs w.server);
  made = q.made ∙ ap (λ l. l ++ q.calls) p.made ∙ append_assoc w.trace p.calls q.calls;
}

pub Advances-deliver : (msg : StateRequestMsg) (w : World) → Advances w (deliver msg w).1
unfolding deliver
Advances-deliver msg w = go w.server refl
  where
    after :
        (s : State) (r : Option Served)
        → w.server ≡ some s
        → dispatch w.now s msg ≡ r
        → Advances w (after_round w r).1
    after s none here ran = record {
      msgs = (w.now, msg) ∷ [];
      calls = [];
      serving = serve_one w.now msg s none w.server here ran;
      made = sym (append-nil w.trace);
    }
    after s (some r) here ran = record {
      msgs = (w.now, msg) ∷ [];
      calls = r.effects;
      serving = serve_one w.now msg s (some r) w.server here ran;
      made = refl;
    }

    go : (o : Option State) → w.server ≡ o → Advances w (round msg o w).1
    go none gone = Advances-same w w refl refl
    go (some s) here = after s (dispatch w.now s msg) here refl

pub Advances-happens : (e : Event) (w : World) → Advances w (happens e w)
unfolding happens
Advances-happens (served msg) w = Advances-deliver msg w
Advances-happens (clock t) w = Advances-same w (record w { now = t }) refl refl
Advances-happens (poisoning m) w =
    Advances-same w (record w { poisoned = m ∷ w.poisoned }) refl refl

Advances-interfere : (events : List Event) (w : World) → Advances w (interfere events w)
unfolding interfere
Advances-interfere [] w = Advances-same w w refl refl
Advances-interfere (e ∷ events) w =
    Advances-trans w (happens e w) (interfere events (happens e w)) (Advances-happens e w)
      (Advances-interfere events (happens e w))

pub Advances-yield : (w : World) → Advances w (yield w)
unfolding yield
Advances-yield w =
    let w1 : World = record w { turn = suc w.turn } in
    Advances-trans w w1 (yield w) (Advances-same w w1 refl refl)
      (Advances-interfere (w.env.events w.turn) w1)

-- The action moves the world on, whether it panics or not.
pub record Moves {A : Type 0} (m : Exec A) : Type 0 where
  pub at : (w : World) → Advances w (m w).1

module _ {A : Type 0} where
  pub Moves-pure : (a : A) → Moves (pure a)
  Moves-pure a = record { at = λ w. Advances-same w w refl refl }

  pub Moves-panic : Moves (panic {A = A})
  Moves-panic = record { at = λ w. Advances-same w w refl refl }

  pub Moves-unwrap : (o : Option A) → Moves (unwrap o)
  Moves-unwrap none = Moves-panic
  Moves-unwrap (some a) = Moves-pure a

  pub Moves-if : (b : Bool) (m k : Exec A) → Moves m → Moves k → Moves (if b then m else k)
  Moves-if true m k p q = p
  Moves-if false m k p q = q

  Advances-unlock :
      (n : String) (w : World) (r : Outcome A × World) → Advances w r.1 → Advances w (unlock n r).1
  Advances-unlock n w (ok a, w') p = p
  Advances-unlock n w (panicked, w') p =
      Advances-trans w w' (record w' { poisoned = n ∷ w'.poisoned }) p
        (Advances-same w' (record w' { poisoned = n ∷ w'.poisoned }) refl refl)

  pub Moves-locked : (n : String) (m : Exec A) → Moves m → Moves (locked n m)
  unfolding locked
  Moves-locked n m p = record { at = λ w. go w (is_poisoned n w.poisoned) }
    where
      go : (w : World) (b : Bool) → Advances w (enter n m b w).1
      go w true = Advances-same w w refl refl
      go w false = Advances-unlock n w (m w) (p.at w)

module _ {A B : Type 0} where
  pub Moves-bind :
      (m : Exec A) (f : A → Exec B) → Moves m → ((a : A) → Moves (f a)) → Moves (m >>= f)
  Moves-bind m f p q = record { at = λ w. go w (m w) (p.at w) }
    where
      go : (w : World) (r : Outcome A × World) → Advances w r.1 → Advances w (continue r.0 f r.1).1
      go w (ok a, w') h = Advances-trans w w' (f a w').1 h ((q a).at w')
      go w (panicked, w') h = h

pub Moves-call : (msg : StateRequestMsg) → Moves (call msg)
unfolding call
Moves-call msg = record {
  at = λ w.
      let w1 = yield w in
      let (answer, w2) = deliver msg w1 in
      Advances-trans w w1 (unwrap answer w2).1 (Advances-yield w) (
        Advances-trans w1 w2 (unwrap answer w2).1 (Advances-deliver msg w1)
          ((Moves-unwrap answer).at w2));
}

pub Moves-read_clock : Moves read_clock
unfolding read_clock
Moves-read_clock = record { at = λ w. Advances-yield w }

pub Moves-emit : (es : List Effect) → Moves (emit es)
unfolding emit
Moves-emit es = record {
  at = λ w. record { msgs = []; calls = es; serving = serve_all-nil w.server; made = refl };
}

pub Moves-try_call : (e : Effect) → Moves (try_call e)
unfolding try_call
Moves-try_call e = record {
  at = λ w. record { msgs = []; calls = e ∷ []; serving = serve_all-nil w.server; made = refl };
}

pub Moves-call_or_panic : (e : Effect) → Moves (call_or_panic e)
unfolding call_or_panic
Moves-call_or_panic e =
    Moves-bind (try_call e) _ (Moves-try_call e) (λ b. Moves-if b _ _ (Moves-pure tt) Moves-panic)

pub Moves-set_mesos_client : (b : Bool) → Moves (set_mesos_client b)
unfolding set_mesos_client
Moves-set_mesos_client b = record {
  at = λ w. Advances-same w (record w { has_client = b }) refl refl;
}

pub Moves-for_each :
    {A : Type 0} (body : A → Exec (Unit {0})) (xs : List A)
    → ((x : A) → Moves (body x))
    → Moves (for_each body xs)
unfolding for_each
Moves-for_each body [] step = Moves-pure tt
Moves-for_each body (x ∷ xs) step =
    Moves-bind (body x) _ (step x) (λ _. Moves-for_each body xs step)

abbrev pub moving : Closed
moving = record {
  Holds = λ m. Moves m;
  of_pure = Moves-pure;
  of_bind = Moves-bind;
  of_call = Moves-call;
  of_read_clock = Moves-read_clock;
  of_emit = Moves-emit;
}
