-- ===== src/Start/Loaded.antt =====
-- What `load_node_list` and `StateManager::new` of src/state/state.rs leave behind, while no other
-- thread does anything.
use torc_scheduler.Background.{CleanConfig}
use torc_scheduler.Background.Cleaned.{apply_each_keeps}
use torc_scheduler.Client.{World, ok, pure, unwrap, ◌>>=◌, ◌>>◌, emit, for_each, read_clock}
use torc_scheduler.Client.Quiet.{
  IsQuiet, Runs, Runs-pure, Runs-bind, Runs-unwrap, Runs-emit, Runs-read_clock, Runs-request,
  apply_each,
}
use torc_scheduler.Client.Stored.{stored, view-stored}
use torc_scheduler.Client.StateManager.{StateManager, NodeConfig, new_node, send_add_node}
use torc_scheduler.Collaborator.{Effect}
use torc_scheduler.Collaborator.NetworkAgent.{reset_fib}
use torc_scheduler.Config.{YamlLibrary}
use torc_scheduler.Config.Settings.{
  read_config_file, settings, read_node, read_sync_config, read_clean_config,
}
use mathlib.Core.List.{append-nil}
use torc_scheduler.HashMap.{get}
use torc_scheduler.NodeList
use torc_scheduler.NodeList.View as NodeView
use torc_scheduler.Prelude.{ℕ, String, ◌≡◌, refl, ap, ◌∙◌, Option, none, some, List, [], ◌∷◌, ◌++◌}
use torc_scheduler.Prelude.Int.{ℤ}
use torc_scheduler.Prelude.Panic.{AllRead}
use torc_scheduler.Records.{Node}
use torc_scheduler.Server.{State, StateRequestMsg, start_state}
use torc_scheduler.Server.Handlers
use torc_scheduler.Server.Refinement.{Shows}
use torc_scheduler.Server.Serve.{dispatch}
use torc_scheduler.Server.Validity.{IsValid, start_state-IsValid}
use torc_scheduler.Start.{add_configured, load_node_list, new_state_manager, start_serving}
use torc_scheduler.TaskList

-- What the entries make of the node under a name.
abbrev pub loaded : ℤ → List NodeConfig → String → Option Node → Option Node
loaded now cs n o = stored (λ (c : NodeConfig). c.name) (new_node now) cs n o

module _ (now : ℤ) where
  abbrev with_configured : NodeConfig → State → State
  with_configured c s = record s { node_list = NodeList.add_new_node (new_node now c) s.node_list }

  abbrev pub with_all : List NodeConfig → State → State
  with_all cs s = apply_each with_configured cs s

  get_node-with_all :
      (cs : List NodeConfig) (n : String) (s : State)
      → NodeList.get_node n (with_all cs s).node_list
        ≡ loaded now cs n (NodeList.get_node n s.node_list)
  get_node-with_all =
      view-stored (λ (c : NodeConfig). c.name) (new_node now)
        (λ n s. NodeList.get_node n s.node_list) with_configured
        (λ c n s. NodeView.get_node-add_new_node s.node_list n (new_node now c))

  task_list-with_all : (cs : List NodeConfig) (s : State) → (with_all cs s).task_list ≡ s.task_list
  task_list-with_all cs s =
      apply_each_keeps (λ u. u.task_list ≡ s.task_list) with_configured (λ c u h. h) cs s refl

  with_all-IsValid : (cs : List NodeConfig) (s : State) → IsValid s → IsValid (with_all cs s)
  with_all-IsValid = apply_each_keeps IsValid with_configured (λ c u h. record {
    tasks = h.tasks;
    nodes = NodeView.add_new_node-IsValid u.node_list h.nodes (new_node now c);
  })

  Runs-send_add_node :
      (c : NodeConfig) (s : State) → Runs now (send_add_node c) s tt [] (with_configured c s)
  unfolding send_add_node dispatch Handlers.handle_add_node
  Runs-send_add_node c s =
      Runs-bind now read_clock _ s s (with_configured c s) now tt [] [] (Runs-read_clock now s)
        (Runs-request now (λ _. tt) (StateRequestMsg.add_node (new_node now c)) s _ refl)

module _ (lib : YamlLibrary) (now : ℤ) where
  Runs-add_all :
      (sm : StateManager) (nodes : List lib.Yaml) (cs : List NodeConfig) (s : State)
      → AllRead (read_node lib sm.master_ip) nodes cs
      → Runs now (for_each (add_configured lib sm) nodes) s tt [] (with_all now cs s)
  unfolding for_each add_configured
  Runs-add_all sm [] [] s h = Runs-pure now tt s
  Runs-add_all sm [] (c ∷ cs) s h = absurd h
  Runs-add_all sm (v ∷ nodes) [] s h = absurd h
  Runs-add_all sm (v ∷ nodes) (c ∷ cs) s h =
      let s1 = with_configured now c s in
      Runs-bind now (add_configured lib sm v) _ s s1 (with_all now cs s1) tt tt [] []
        (Runs-bind now (unwrap (read_node lib sm.master_ip v)) send_add_node s s s1 c tt [] []
          (Runs-unwrap now _ c s h.0) (Runs-send_add_node now c s))
        (Runs-add_all sm nodes cs s1 h.1)

  Runs-load_node_list :
      (sm : StateManager) (config : lib.Yaml) (nodes : List lib.Yaml) (cs : List NodeConfig)
      (s : State)
      → lib.as_vec (lib.index config "nodes") ≡ some nodes
      → AllRead (read_node lib sm.master_ip) nodes cs
      → Runs now (load_node_list lib sm config) s tt [] (with_all now cs s)
  unfolding load_node_list
  Runs-load_node_list sm config nodes cs s listed h =
      Runs-bind now (unwrap (lib.as_vec (lib.index config "nodes"))) _ s s (with_all now cs s) nodes
        tt [] [] (Runs-unwrap now _ nodes s listed) (Runs-add_all sm nodes cs s h)

  -- A configuration whose parts that are read at the start can be read.
  pub record IsReadable (files : String → Option String) (config_file master_ip : String)
      (config : lib.Yaml) (cs : List NodeConfig) : Type 0 where
    pub nodes : List lib.Yaml
    pub wait_time : ℕ
    pub clean : ℕ × CleanConfig
    pub parsed : read_config_file lib files config_file ≡ some config
    pub listed : lib.as_vec (lib.index config "nodes") ≡ some nodes
    pub read : AllRead (read_node lib master_ip) nodes cs
    pub syncs : read_sync_config lib config ≡ some wait_time
    pub cleans : read_clean_config lib config ≡ some clean

  -- The thread that starts has no one beside it yet.
  pub record IsAlone (w : World) : Type 0 where
    pub events : (n : ℕ) → w.env.events n ≡ []
    pub time : w.now ≡ now
    pub unpoisoned : w.poisoned ≡ []

  module _ (files : String → Option String) (uuid master_ip my_ip config_file : String)
      (config : lib.Yaml) (cs : List NodeConfig)
      (r : IsReadable files config_file master_ip config cs) where
    sm : StateManager
    sm = settings lib config master_ip my_ip uuid

    s0 : State
    s0 = start_state master_ip sm.my_name

    s1 : State
    s1 = with_all now cs s0

    resets : List Effect
    resets = reset_fib sm.network_agent_type sm.network_agent_connection

    -- `new` once the serving thread is started.
    Runs-started :
        Runs now
          (load_node_list lib sm config >> do
            wait_time ← unwrap (read_sync_config lib config)
            clean_config ← unwrap (read_clean_config lib config)
            emit (reset_fib sm.network_agent_type sm.network_agent_connection)
            pure sm)
          s0
          sm
          (resets ++ [])
          s1
    unfolding sm s0 s1 resets
    Runs-started =
        Runs-bind now (load_node_list lib sm config) _ s0 s1 s1 tt sm [] (resets ++ [])
          (Runs-load_node_list sm config r.nodes cs s0 r.listed r.read)
          (Runs-bind now (unwrap (read_sync_config lib config)) _ s1 s1 s1 r.wait_time sm []
            (resets ++ []) (Runs-unwrap now _ r.wait_time s1 r.syncs)
            (Runs-bind now (unwrap (read_clean_config lib config)) _ s1 s1 s1 r.clean sm []
              (resets ++ []) (Runs-unwrap now _ r.clean s1 r.cleans)
              (Runs-bind now (emit resets) _ s1 s1 s1 tt sm resets [] (Runs-emit now s1 resets)
                (Runs-pure now sm s1))))

    abbrev started_world : World → World
    started_world w = record w { server = some s0 }

    -- A thread that starts alone, with a configuration that can be read, ends the start with the
    -- settings of the configuration, one call of the network agent to reset its routes, and a valid
    -- state with no task and under each name the last configured node of that name.
    pub new_state_manager_lem :
        (w : World)
        → IsAlone w
        → (s' : State) × (w' : World) × (new_state_manager lib files uuid master_ip my_ip
              config_file w
            ≡ (ok (settings lib config master_ip my_ip uuid), w'))
          × (w'.trace
              ≡ w.trace
                ++ reset_fib
                    (settings lib config master_ip my_ip uuid).network_agent_type
                    (settings lib config master_ip my_ip uuid).network_agent_connection)
          × IsQuiet now s' w'
          × IsValid s'
          × Shows (λ n. none) (λ n. loaded now cs n none) (some s')
    unfolding new_state_manager start_serving sm s0 s1 resets start_state NodeList.get_node
        TaskList.get_task get
    new_state_manager_lem w alone =
        let w0 = started_world w in
        let (w', ran, traced, quiet, _) = Runs-started.at w0 (record {
          events = alone.events;
          time = alone.time;
          serving = refl;
          unpoisoned = alone.unpoisoned;
        }) in
        (
          s1,
          w',
          rw r.parsed ran,
          traced ∙ ap (λ l. w.trace ++ l) (append-nil resets),
          quiet,
          with_all-IsValid now cs s0 (start_state-IsValid master_ip sm.my_name),
          (
            λ n. ap (TaskList.get_task n) (task_list-with_all now cs s0),
            λ n. get_node-with_all now cs n s0,
          ),
        )
