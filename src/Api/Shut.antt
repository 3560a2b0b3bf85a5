-- ===== src/Api/Shut.antt =====
-- What a request to /start/group in src/api/run_api.rs leaves behind if a service of the group cannot
-- be read, as read_task of src/utils/config.rs panics while the mutex of the route is held.
use torc_scheduler.Api.{
  JsonCodec, argument_of, start_service, start_group, start_groups, handle_start_service_group,
}
use torc_scheduler.Client.{
  World, panicked, Outcome, Exec, pure, unwrap, continue, ◌>>=◌, when, for_each,
}
use torc_scheduler.Client.Lock.{is_poisoned, locked, locked_free, Runs-locked, locked-poisoned}
use torc_scheduler.Client.Quiet.{IsQuiet, Runs, Runs-pure, Runs-bind, Runs-unwrap}
use torc_scheduler.Client.StateManager.{StateManager}
use torc_scheduler.Config.{YamlLibrary, read_task}
use torc_scheduler.Prelude.{
  String, ◌≡◌, refl, sym, ap, subst, ◌∙◌, true, false, Option, none, some, List, [], ◌∷◌, ◌++◌,
  is_empty, ◌==◌, eq_refl,
}
use torc_scheduler.Prelude.Int.{ℤ}
use torc_scheduler.Server.{State}

abbrev group_mutex : String
group_mutex = "start_service_group_state_manager"

-- From `s` the action panics with the mutex of the route held, and leaves the state.
record Shuts {A : Type 0} (now : ℤ) (s : State) (action : Exec A) : Type 0 where
  at :
      (w : World)
      → IsQuiet now s w
      → (w1 : World) × (action w ≡ (panicked, w1))
        × (w1.server ≡ some s)
        × (is_poisoned group_mutex w1.poisoned ≡ true)

module _ {A B : Type 0} (now : ℤ) (s : State) (m : Exec A) (f : A → Exec B) where
  Shuts-bind : Shuts now s m → Shuts now s (m >>= f)
  Shuts-bind d = record {
    at = λ w q.
        let (w1, died, alive, shut) = d.at w q in
        (w1, ap (λ (r : Outcome A × World). continue r.0 f r.1) died, alive, shut);
  }

  Shuts-after : (a : A) → Runs now m s a [] s → Shuts now s (f a) → Shuts now s (m >>= f)
  Shuts-after a r d = record {
    at = λ w q.
        let (w1, ran, _, q1, _) = r.at w q in
        let (w2, died, alive, shut) = d.at w1 q1 in
        (w2, ap (λ (p : Outcome A × World). continue p.0 f p.1) ran ∙ died, alive, shut);
  }

Shuts-locked :
    {A : Type 0} (now : ℤ) (s : State) (o : Option A)
    → o ≡ none
    → Shuts now s (locked group_mutex (unwrap o))
Shuts-locked {A} now s o e = record {
  at = λ w q. (
    record w { poisoned = group_mutex ∷ w.poisoned },
    locked_free group_mutex (unwrap o) w (panicked, w) (ap (is_poisoned group_mutex) q.unpoisoned)
        (ap (λ p. unwrap p w) e),
    q.serving,
    refl,
  );
}

module _ (codec : JsonCodec) (lib : YamlLibrary) (sm : StateManager) where
  -- The entries are groups of other names.
  abbrev pub AreOthers : String → List lib.Yaml → Type 0
  AreOthers name [] = Unit
  AreOthers name (entry ∷ entries) =
      ((other : String) × (lib.as_str (lib.index entry "name") ≡ some other)
        × ((other == name) ≡ false))
      × AreOthers name entries

  -- The first service of the group cannot be read.
  pub record IsBadGroup (name : String) (entry : lib.Yaml) : Type 0 where
    pub service : lib.Yaml
    pub services : List lib.Yaml
    pub named : lib.as_str (lib.index entry "name") ≡ some name
    pub listed : lib.as_vec (lib.index entry "services") ≡ some (service ∷ services)
    pub unreadable : read_task lib sm.master_ip service ≡ none

  module _ (now : ℤ) (s : State) where
    Shuts-bad_group :
        (name : String) (entry : lib.Yaml)
        → IsBadGroup name entry
        → Shuts now s (start_group codec lib sm name entry)
    unfolding for_each
    Shuts-bad_group name entry bad =
        Shuts-after now s (unwrap (lib.as_str (lib.index entry "name"))) _ name
          (Runs-unwrap now _ name s bad.named)
          (subst
            (λ b. Shuts now s (
              when b do
                services ← unwrap (lib.as_vec (lib.index entry "services"))
                for_each (start_service codec lib sm) services))
            (sym (eq_refl name))
            (Shuts-after now s (unwrap (lib.as_vec (lib.index entry "services"))) _
              (bad.service ∷ bad.services) (Runs-unwrap now _ _ s bad.listed)
              (Shuts-bind now s (start_service codec lib sm bad.service) _
                (Shuts-bind now s _ _ (Shuts-locked now s _ bad.unreadable)))))

    Shuts-groups :
        (name : String) (before after : List lib.Yaml) (entry : lib.Yaml)
        → AreOthers name before
        → IsBadGroup name entry
        → Shuts now s (for_each (start_group codec lib sm name) (before ++ entry ∷ after))
    unfolding for_each
    Shuts-groups name [] after entry others bad =
        Shuts-bind now s (start_group codec lib sm name entry) _ (Shuts-bad_group name entry bad)
    Shuts-groups name (v ∷ before) after entry ((other, named, differs), others) bad =
        Shuts-after now s (start_group codec lib sm name v) _ tt
          (Runs-bind now (unwrap (lib.as_str (lib.index v "name"))) _ s s s other tt [] []
            (Runs-unwrap now _ other s named) (rw differs (Runs-pure now tt s)))
          (Shuts-groups name before after entry others bad)

    -- In a quiet environment, a request to start a group whose first service cannot be read, after
    -- groups of other names, makes the handler panic and leaves the state of the serving thread;
    -- the mutex of the route is poisoned, so that a later request on the route for any group,
    -- readable or not, panics and changes nothing.
    pub bad_group_shuts_route :
        (config : lib.Yaml) (query later : Option String) (before after : List lib.Yaml)
        (entry : lib.Yaml) (w : World)
        → IsQuiet now s w
        → is_empty (argument_of "name=" 5 query) ≡ false
        → is_empty (argument_of "name=" 5 later) ≡ false
        → lib.as_vec (lib.index (lib.index config "api") "service-groups")
          ≡ some (before ++ entry ∷ after)
        → AreOthers (argument_of "name=" 5 query) before
        → IsBadGroup (argument_of "name=" 5 query) entry
        → (w1 : World) × (handle_start_service_group codec lib sm config query w ≡ (panicked, w1))
          × (w1.server ≡ some s)
          × (handle_start_service_group codec lib sm config later w1 ≡ (panicked, w1))
    unfolding handle_start_service_group
    bad_group_shuts_route config query later before after entry w q given given_later listed others
          bad =
        let name = argument_of "name=" 5 query in
        let shuts : Shuts now s (start_groups codec lib sm config name) =
          Shuts-after now s (locked group_mutex (pure config)) _ config
            (Runs-locked now group_mutex (pure config) s s config [] (Runs-pure now config s))
            (Shuts-after now s
              (unwrap (lib.as_vec (lib.index (lib.index config "api") "service-groups"))) _
              (before ++ entry ∷ after) (Runs-unwrap now _ _ s listed)
              (Shuts-groups name before after entry others bad)) in
        let (w1, died, alive, shut) = shuts.at w q in
        (
          w1,
          rw (given, died) refl,
          alive,
          rw (given_later, locked-poisoned group_mutex (pure config) w1 shut) refl,
        )
