-- ===== src/Program/Reached.antt =====
-- Where the program of src/main.rs can get from its start, and what it makes of the serving thread.
use mathlib.Core.List.{append_assoc}
use torc_scheduler.Client.{World, Outcome, ok, Exec, pure, unwrap, emit, ◌>>=◌, ◌>>◌}
use torc_scheduler.Client.Ends.{>>=-eq-ok, pure-eq-ok, unwrap-eq-ok}
use torc_scheduler.Client.Moves.{
  moving, Advances, Advances-same, Advances-trans, Moves, Moves-pure, Moves-bind, Moves-unwrap,
  Moves-emit, serve_all-append,
}
use torc_scheduler.Client.StateManager.{StateManager}
use torc_scheduler.Collaborator.{Effect}
use torc_scheduler.Collaborator.NetworkAgent.{reset_fib}
use torc_scheduler.Config.{YamlLibrary}
use torc_scheduler.Config.Settings.{
  read_config_file, settings, read_sync_config, read_clean_config, unwrap_or,
}
use torc_scheduler.Prelude.{String, ◌≡◌, refl, sym, ap, subst, ◌∙◌, Option, none, some, List, ◌++◌}
use torc_scheduler.Prelude.Int.{ℤ}
use torc_scheduler.Program.{Program, Setting, Step, Reaches, start_threads}
use torc_scheduler.Program.Callbacks.{Moves-callback, Moves-scheduler_enters}
use torc_scheduler.Program.Requests.{Moves-respond, Moves-run_api}
use torc_scheduler.Program.Rounds.{
  Holds-sync_round, Holds-clean_round, Holds-health_round, Moves-prepare, Moves-load_node_list,
}
use torc_scheduler.Server.{StateRequestMsg, start_state}
use torc_scheduler.Server.Answers.{start_state-Shows}
use torc_scheduler.Server.Refinement.{Shows, task_history, node_history, serve_all-Shows}
use torc_scheduler.Server.Serve.{serve_all}
use torc_scheduler.Server.Validity.{IsValidIfAlive, serve_all-IsValid, start_state-IsValid}
use torc_scheduler.Start.{
  CommandLine, own_ip, start_serving, load_node_list, new_state_manager, main,
}

module _ (x : Setting) where
  pub Step-Advances : (p q : Program) → Step x p q → Advances p.world q.world
  Step-Advances p q (Step.api_starts _ _ _) = (Moves-run_api x.sm).at p.world
  Step-Advances p q (Step.answers _ method path request _ _) =
      (Moves-respond x.codec x.yaml x.sm x.config x.router method path request).at p.world
  Step-Advances p q (Step.scheduler_starts _ _ _) = (Moves-scheduler_enters x.sm).at p.world
  Step-Advances p q (Step.calls_back _ c _ _) = (Moves-callback x.json c).at p.world
  Step-Advances p q (Step.health_starts _ _ _) = (Moves-prepare x.yaml x.sm x.config).at p.world
  Step-Advances p q (Step.checks _ tasks entries _ _) =
      (Holds-health_round moving x.sm tasks entries).at p.world
  Step-Advances p q (Step.syncs _ _ _) = (Holds-sync_round moving x.sm).at p.world
  Step-Advances p q (Step.cleans _ _ _) = (Holds-clean_round moving x.sm x.clean_config).at p.world

  pub Reaches-Advances : (p q : Program) → Reaches x p q → Advances p.world q.world
  Reaches-Advances first last (Reaches.here _) = Advances-same first.world last.world refl refl
  Reaches-Advances first last (Reaches.after {p} {q} {r} before s) =
      Advances-trans first.world q.world last.world (Reaches-Advances first q before)
        (Step-Advances q last s)

-- `main` returns a manager only after the serving thread has been started with its names.
record StartsServing (sm : StateManager) (w w' : World) : Type 0 where
  pub msgs : List (ℤ × StateRequestMsg)
  pub calls : List Effect
  pub serving : w'.server ≡ serve_all msgs (some (start_state sm.master_ip sm.my_name))
  pub made : w'.trace ≡ w.trace ++ calls

module _ {A : Type 0} where
  -- Nothing but `a` is returned.
  record Returns (m : Exec A) (a : A) : Type 0 where
    pub at : (w w' : World) (b : A) → m w ≡ (ok b, w') → a ≡ b

  Returns-pure : (a : A) → Returns (pure a) a
  Returns-pure a = record { at = λ w w' b e. (pure-eq-ok a b w w' e).0 }

  Returns-bind :
      {B : Type 0} (m : Exec B) (f : B → Exec A) (a : A)
      → ((b : B) → Returns (f b) a)
      → Returns (m >>= f) a
  Returns-bind m f a p = record {
    at = λ w w' c e. let (b, w1, _, rest) = >>=-eq-ok m f w w' c e in (p b).at w1 w' c rest;
  }

module _ (lib : YamlLibrary) (sm : StateManager) (config : lib.Yaml) where
  -- `StateManager::new` once the serving thread is there.
  abbrev rest_of_new : Exec StateManager
  rest_of_new = do
    load_node_list lib sm config
    wait_time ← unwrap (read_sync_config lib config)
    clean_config ← unwrap (read_clean_config lib config)
    emit (reset_fib sm.network_agent_type sm.network_agent_connection)
    pure sm

  Returns-rest_of_new : Returns rest_of_new sm
  Returns-rest_of_new = Returns-bind (load_node_list lib sm config) _ sm (λ _.
      Returns-bind (unwrap (read_sync_config lib config)) _ sm (λ wait_time.
        Returns-bind (unwrap (read_clean_config lib config)) _ sm
          (λ clean_config. Returns-bind (emit _) _ sm (λ _. Returns-pure sm))))

  Moves-rest_of_new : Moves rest_of_new
  Moves-rest_of_new = Moves-bind _ _ (Moves-load_node_list lib sm config) (λ _.
      Moves-bind _ _ (Moves-unwrap (read_sync_config lib config)) (λ wait_time.
        Moves-bind _ _ (Moves-unwrap (read_clean_config lib config))
          (λ clean_config. Moves-bind _ _ (Moves-emit _) (λ _. Moves-pure sm))))

  rest_of_new-StartsServing :
      (made : StateManager) (w w' : World)
      → rest_of_new (record w { server = some (start_state sm.master_ip sm.my_name) })
        ≡ (ok made, w')
      → StartsServing made w w'
  rest_of_new-StartsServing made w w' e =
      let w1 : World = record w { server = some (start_state sm.master_ip sm.my_name) } in
      let same = Returns-rest_of_new.at w1 w' made e in
      let on = Moves-rest_of_new.at w1 in
      let ended : (rest_of_new w1).1 ≡ w' = ap (λ (r : Outcome StateManager × World). r.1) e in
      record {
        msgs = on.msgs;
        calls = on.calls;
        serving =
            ap (λ (v : World). v.server) (sym ended)
            ∙ on.serving
            ∙ ap
                (λ (m : StateManager). serve_all on.msgs (some (start_state m.master_ip m.my_name)))
                same;
        made = ap (λ (v : World). v.trace) (sym ended) ∙ on.made;
      }

new_state_manager-StartsServing :
    (lib : YamlLibrary) (files : String → Option String) (uuid master_ip my_ip file : String)
    (sm : StateManager) (w w' : World)
    → new_state_manager lib files uuid master_ip my_ip file w ≡ (ok sm, w')
    → StartsServing sm w w'
unfolding new_state_manager start_serving
new_state_manager-StartsServing lib files uuid master_ip my_ip file sm w w' e =
    let (config, w1, first, rest) =
      >>=-eq-ok (unwrap (read_config_file lib files file)) _ w w' sm e in
    let same : w ≡ w1 = (unwrap-eq-ok (read_config_file lib files file) config w w1 first).1 in
    subst (λ v. StartsServing sm v w') (sym same)
      (rest_of_new-StartsServing lib (settings lib config master_ip my_ip uuid) config sm w1 w'
        rest)

module _ (x : Setting) (files : String → Option String) (uuid : String) (args : CommandLine) where
  -- If `main` gets its StateManager, then wherever the program gets from there, whichever of its
  -- threads take steps, in whatever order, and whatever messages of others come in between: the
  -- serving thread is where serving some messages from its first state leads; unless it has
  -- panicked, its lists are valid and show under each name what the history of that name makes; and
  -- the calls made are those made before the start and others after them.
  pub program_serves_messages :
      (w w' : World) (p : Program)
      → main x.yaml files uuid args w ≡ (ok x.sm, w')
      → Reaches x (start_threads w') p
      → (msgs : List (ℤ × StateRequestMsg)) × (calls : List Effect) × (p.world.server
          ≡ serve_all msgs (some (start_state x.sm.master_ip x.sm.my_name)))
        × (p.world.trace ≡ w.trace ++ calls)
        × IsValidIfAlive p.world.server
        × Shows (λ n. task_history msgs n none) (λ n. node_history msgs n none) p.world.server
  unfolding main
  program_serves_messages w w' p started reached =
      let begun =
        new_state_manager-StartsServing x.yaml files uuid args.master_ip
          (own_ip args.master_ip (unwrap_or "" args.my_ip))
          (unwrap_or "./config/config.yml" args.config) x.sm w w' started in
      let on = Reaches-Advances x (start_threads w') p reached in
      let start = some (start_state x.sm.master_ip x.sm.my_name) in
      let msgs = begun.msgs ++ on.msgs in
      let served : p.world.server ≡ serve_all msgs start =
        on.serving
        ∙ ap (serve_all on.msgs) begun.serving
        ∙ sym (serve_all-append begun.msgs on.msgs start) in
      (
        msgs,
        begun.calls ++ on.calls,
        served,
        on.made ∙ ap (λ l. l ++ on.calls) begun.made ∙ append_assoc w.trace begun.calls on.calls,
        subst IsValidIfAlive (sym served)
            (serve_all-IsValid msgs start (start_state-IsValid x.sm.master_ip x.sm.my_name)),
        subst (Shows (λ n. task_history msgs n none) (λ n. node_history msgs n none)) (sym served) (
            serve_all-Shows msgs start (λ _. none) (λ _. none)
              (start_state-Shows x.sm.master_ip x.sm.my_name)),
      )
