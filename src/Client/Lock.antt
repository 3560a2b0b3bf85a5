-- ===== src/Client/Lock.antt =====
-- `mutex.lock().unwrap()`, as src/api/run_api.rs uses it: a panic while a mutex is held poisons it,
-- and to lock a poisoned mutex panics.
use torc_scheduler.Client.{World, Outcome, ok, panicked, Exec}
use torc_scheduler.Client.Dead.{Dies}
use torc_scheduler.Client.Quiet.{IsQuiet, Runs}
use torc_scheduler.Collaborator.{Effect}
use torc_scheduler.Prelude.{
  String, ◌≡◌, refl, ap, ◌∙◌, Bool, true, false, none, inl, inr, Bool-cases, List, [], ◌∷◌, ◌==◌,
  if◌then◌else◌,
}
use torc_scheduler.Prelude.Int.{ℤ}
use torc_scheduler.Server.{State}

abbrev pub is_poisoned : String → List String → Bool
is_poisoned m [] = false
is_poisoned m (name ∷ names) = let later = is_poisoned m names in if name == m then true else later

free : (m : String) (w : World) → w.poisoned ≡ [] → is_poisoned m w.poisoned ≡ false
free m w e = ap (is_poisoned m) e

module _ {A : Type 0} where
  abbrev pub unlock : String → Outcome A × World → Outcome A × World
  unlock m (ok a, w) = (ok a, w)
  unlock m (panicked, w) = (panicked, record w { poisoned = m ∷ w.poisoned })

  abbrev pub enter : String → Exec A → Bool → Exec A
  enter m action true w = (panicked, w)
  enter m action false w = unlock m (action w)

  -- The guard is dropped at the end of the action.
  unfoldable pub locked : String → Exec A → Exec A
  locked m action w = enter m action (is_poisoned m w.poisoned) w

  pub locked_free :
      (m : String) (action : Exec A) (w : World) (r : Outcome A × World)
      → is_poisoned m w.poisoned ≡ false
      → action w ≡ r
      → locked m action w ≡ unlock m r
  unfolding locked
  locked_free m action w r free ran = ap (λ b. enter m action b w) free ∙ ap (unlock m) ran

  pub Runs-locked :
      (now : ℤ) (m : String) (action : Exec A) (s s' : State) (a : A) (es : List Effect)
      → Runs now action s a es s'
      → Runs now (locked m action) s a es s'
  Runs-locked now m action s s' a es r = record {
    at = λ w q.
        let (w', ran, traced, q', env) = r.at w q in
        (w', locked_free m action w (ok a, w') (free m w q.unpoisoned) ran, traced, q', env);
  }

  -- A panic goes on, and changes nothing of the serving thread.
  unlock_panicked :
      (m : String) (r : Outcome A × World)
      → r.0 ≡ panicked
      → ((unlock m r).0 ≡ panicked) × ((unlock m r).1.server ≡ r.1.server)
  unlock_panicked m (ok a, w) e = cc
  unlock_panicked m (panicked, w) e = (refl, refl)

  pub Dies-locked :
      (now : ℤ) (m : String) (action : Exec A) (s : State) (w : World)
      → IsQuiet now s w
      → Dies action w
      → Dies (locked m action) w
  Dies-locked now m action s w q d =
      let entered : locked m action w ≡ unlock m (action w) =
        locked_free m action w (action w) (free m w q.unpoisoned) refl in
      let (died, gone) = unlock_panicked m (action w) d.outcome in
      record {
        outcome = ap (λ (p : Outcome A × World). p.0) entered ∙ died;
        server = ap (λ (p : Outcome A × World). p.1.server) entered ∙ gone ∙ d.server;
      }

  -- Once the serving thread is gone it stays gone, whether the mutex is poisoned or not.
  pub Dies-locked_dead :
      (m : String) (action : Exec A) (w : World)
      → w.server ≡ none
      → Dies action w
      → Dies (locked m action) w
  unfolding locked
  Dies-locked_dead m action w gone d = elim (Bool-cases (is_poisoned m w.poisoned)) [
    | inl e ↦ record {
      outcome = ap (λ b. (enter m action b w).0) e;
      server = ap (λ b. (enter m action b w).1.server) e ∙ gone;
    }
    | inr e ↦
        let (died, kept) = unlock_panicked m (action w) d.outcome in
        record {
          outcome = ap (λ b. (enter m action b w).0) e ∙ died;
          server = ap (λ b. (enter m action b w).1.server) e ∙ kept ∙ d.server;
        }
  ]

  -- To lock a poisoned mutex panics and does nothing.
  pub locked-poisoned :
      (m : String) (action : Exec A) (w : World)
      → is_poisoned m w.poisoned ≡ true
      → locked m action w ≡ (panicked, w)
  unfolding locked
  locked-poisoned m action w e = ap (λ b. enter m action b w) e
