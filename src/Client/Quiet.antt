-- ===== src/Client/Quiet.antt =====
-- Runs of a thread while no other thread sends a message and the clock stands still, with one rule
-- for each way to build an action.
use mathlib.Core.List.{append-nil, append_assoc}
use torc_scheduler.Client.{
  World, Outcome, ok, Exec, pure, for_each, when, continue, unwrap, round, after_round, ◌>>=◌, call,
  deliver, yield, interfere, read_clock, emit,
}
use torc_scheduler.Collaborator.{Effect}
use torc_scheduler.Prelude.{
  ℕ, suc, ◌≡◌, refl, sym, ap, ◌∙◌, subst, Bool, true, false, not, ◌&&◌, Option, some, List, [], ◌∷◌,
  ◌++◌, if◌then◌else◌,
}
use torc_scheduler.Prelude.Int.{ℤ}
use torc_scheduler.Server.{State, StateRequestMsg, StateResponseMsg, Served}
use torc_scheduler.Server.Serve.{dispatch}

-- The state after a loop whose rounds change it by `next`, and the calls that the rounds make.
abbrev pub apply_each : {A S : Type 0} → (A → S → S) → List A → S → S
apply_each next [] s = s
apply_each next (x ∷ xs) s = apply_each next xs (next x s)

abbrev pub flat_map : {A B : Type 0} → (A → List B) → List A → List B
flat_map f [] = []
flat_map f (x ∷ xs) = f x ++ flat_map f xs

-- Nothing happens between the thread's own interactions, the time is `now`, the serving thread is in
-- state `s`, and no mutex is poisoned.
pub record IsQuiet (now : ℤ) (s : State) (w : World) : Type 0 where
  pub events : (n : ℕ) → w.env.events n ≡ []
  pub time : w.now ≡ now
  pub serving : w.server ≡ some s
  pub unpoisoned : w.poisoned ≡ []

-- From `s` the action returns `a`, makes the calls `es` of other systems, and leaves `s'` and the
-- environment it is in.
pub record Runs {A : Type 0} (now : ℤ) (m : Exec A) (s : State) (a : A) (es : List Effect)
    (s' : State) : Type 0 where
  pub at :
      (w : World)
      → IsQuiet now s w
      → (w' : World) × (m w ≡ (ok a, w'))
        × (w'.trace ≡ w.trace ++ es)
        × IsQuiet now s' w'
        × (w'.env ≡ w.env)

-- A round of the serving thread, as its client sees it.
abbrev pub answer_of : Option StateResponseMsg × World → Outcome StateResponseMsg × World
answer_of (answer, w) = unwrap answer w

module _ (now : ℤ) where
  pub Runs-pure : {A : Type 0} (a : A) (s : State) → Runs now (pure a) s a [] s
  Runs-pure a s = record { at = λ w q. (w, refl, sym (append-nil w.trace), q, refl) }

  pub Runs-bind :
      {A B : Type 0} (m : Exec A) (f : A → Exec B) (s s' s'' : State) (a : A) (b : B)
      (es es' : List Effect)
      → Runs now m s a es s'
      → Runs now (f a) s' b es' s''
      → Runs now (m >>= f) s b (es ++ es') s''
  Runs-bind {A} m f s s' s'' a b es es' p q = record {
    at = λ w quiet.
        let (w1, e1, t1, q1, v1) = p.at w quiet in
        let (w2, e2, t2, q2, v2) = q.at w1 q1 in
        (
          w2,
          ap (λ (p : Outcome A × World). continue p.0 f p.1) e1 ∙ e2,
          t2 ∙ ap (λ l. l ++ es') t1 ∙ append_assoc w.trace es es',
          q2,
          v2 ∙ v1,
        );
  }

  pub yield-IsQuiet :
      (s : State) (w : World) → IsQuiet now s w → yield w ≡ record w { turn = suc w.turn }
  unfolding yield interfere
  yield-IsQuiet s w q = ap (λ l. interfere l (record w { turn = suc w.turn })) (q.events w.turn)

  pub Runs-call :
      (msg : StateRequestMsg) (s : State) (r : Served)
      → dispatch now s msg ≡ some r
      → Runs now (call msg) s r.answer r.effects r.state
  unfolding call deliver
  Runs-call msg s r e = record {
    at = λ w q.
        let w1 : World = record w { turn = suc w.turn } in
        (
          record w1 { server = some r.state; trace = w.trace ++ r.effects },
          ap (λ v. answer_of (deliver msg v)) (yield-IsQuiet s w q)
              ∙ ap (λ o. answer_of (round msg o w1)) q.serving
              ∙ ap (λ t. answer_of (after_round w1 (dispatch t s msg))) q.time
              ∙ ap (λ d. answer_of (after_round w1 d)) e,
          refl,
          record { events = q.events; time = q.time; serving = refl; unpoisoned = q.unpoisoned },
          refl,
        );
  }

  pub Runs-unwrap :
      {A : Type 0} (o : Option A) (a : A) (s : State) → o ≡ some a → Runs now (unwrap o) s a [] s
  Runs-unwrap o a s e = subst (λ r. Runs now (unwrap r) s a [] s) (sym e) (Runs-pure a s)

  pub Runs-read_clock : (s : State) → Runs now read_clock s now [] s
  unfolding read_clock
  Runs-read_clock s = record {
    at = λ w q.
        let w1 : World = record w { turn = suc w.turn } in
        (
          w1,
          ap (λ (v : World). (ok v.now, v)) (yield-IsQuiet s w q) ∙ ap (λ t. (ok t, w1)) q.time,
          sym (append-nil w.trace),
          record {
            events = q.events;
            time = q.time;
            serving = q.serving;
            unpoisoned = q.unpoisoned;
          },
          refl,
        );
  }

  pub Runs-emit : (s : State) (es : List Effect) → Runs now (emit es) s tt es s
  unfolding emit
  Runs-emit s es = record {
    at = λ w q. (
      record w { trace = w.trace ++ es },
      refl,
      refl,
      record { events = q.events; time = q.time; serving = q.serving; unpoisoned = q.unpoisoned },
      refl,
    );
  }

  -- A call whose answer is read by `f`, such as the methods that send one message.
  pub Runs-request :
      {A : Type 0} (f : StateResponseMsg → A) (msg : StateRequestMsg) (s : State) (r : Served)
      → dispatch now s msg ≡ some r
      → Runs now (call msg >>= λ answer. pure (f answer)) s (f r.answer) r.effects r.state
  Runs-request {A} f msg s r e = record {
    at = λ w q.
        let (w', called, trace, q', same) = (Runs-call msg s r e).at w q in
        (
          w',
          ap
              (λ (p : Outcome StateResponseMsg × World).
                continue {B = A} p.0 (λ answer. pure (f answer)) p.1)
              called,
          trace,
          q',
          same,
        );
  }

  Runs-when :
      (b : Bool) (action : Exec (Unit {0})) (s s' : State) (es : List Effect)
      → Runs now action s tt es s'
      → Runs now (when b action) s tt (if b then es else []) (if b then s' else s)
  Runs-when true action s s' es h = h
  Runs-when false action s s' es h = Runs-pure tt s

  -- An action that is left out on a test, and otherwise made on a test of the clock.
  pub Runs-guarded :
      (skip : Bool) (test : ℤ → Bool) (action : Exec (Unit {0})) (s s' : State) (es : List Effect)
      → Runs now action s tt es s'
      → Runs now
          (if skip then pure tt else (read_clock >>= λ t. when (test t) action))
          s
          tt
          (if not skip && test now then es else [])
          (if not skip && test now then s' else s)
  Runs-guarded true test action s s' es h = Runs-pure tt s
  Runs-guarded false test action s s' es h =
      Runs-bind read_clock (λ t. when (test t) action) s s (if test now then s' else s) now tt []
        (if test now then es else []) (Runs-read_clock s) (Runs-when (test now) action s s' es h)

  pub Runs-when_silent :
      (b : Bool) (action : Exec (Unit {0})) (s s' : State)
      → Runs now action s tt [] s'
      → Runs now (when b action) s tt [] (if b then s' else s)
  Runs-when_silent true action s s' h = h
  Runs-when_silent false action s s' h = Runs-pure tt s

  -- The same for an action that calls no other system.
  pub Runs-guarded_silent :
      (skip : Bool) (test : ℤ → Bool) (action : Exec (Unit {0})) (s s' : State)
      → Runs now action s tt [] s'
      → Runs now
          (if skip then pure tt else (read_clock >>= λ t. when (test t) action))
          s
          tt
          []
          (if not skip && test now then s' else s)
  Runs-guarded_silent true test action s s' h = Runs-pure tt s
  Runs-guarded_silent false test action s s' h =
      Runs-bind read_clock (λ t. when (test t) action) s s (if test now then s' else s) now tt [] []
        (Runs-read_clock s) (Runs-when_silent (test now) action s s' h)

  pub Runs-for_each :
      {A : Type 0} (body : A → Exec (Unit {0})) (next : A → State → State)
      (effects : A → List Effect)
      → ((x : A) (s : State) → Runs now (body x) s tt (effects x) (next x s))
      → (xs : List A) (s : State)
      → Runs now (for_each body xs) s tt (flat_map effects xs) (apply_each next xs s)
  unfolding for_each
  Runs-for_each body next effects step [] s = Runs-pure tt s
  Runs-for_each body next effects step (x ∷ xs) s =
      Runs-bind (body x) (λ _. for_each body xs) s (next x s) (apply_each next xs (next x s)) tt tt
        (effects x) (flat_map effects xs) (step x s)
        (Runs-for_each body next effects step xs (next x s))

  pub Runs-for_each_silent :
      {A : Type 0} (body : A → Exec (Unit {0})) (next : A → State → State)
      → ((x : A) (s : State) → Runs now (body x) s tt [] (next x s))
      → (xs : List A) (s : State) → Runs now (for_each body xs) s tt [] (apply_each next xs s)
  unfolding for_each
  Runs-for_each_silent body next step [] s = Runs-pure tt s
  Runs-for_each_silent body next step (x ∷ xs) s =
      Runs-bind (body x) (λ _. for_each body xs) s (next x s) (apply_each next xs (next x s)) tt tt
        [] [] (step x s) (Runs-for_each_silent body next step xs (next x s))
