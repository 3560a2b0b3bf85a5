-- ===== src/Health/Prepared.antt =====
-- The tasks that src/health/run_health_checker.rs makes of the configured services, and its first
-- round, while no other thread interferes.
use torc_scheduler.Client.{unwrap}
use torc_scheduler.Client.Quiet.{Runs, Runs-pure, Runs-bind, Runs-unwrap, Runs-request, flat_map}
use torc_scheduler.Client.StateManager.{StateManager, TaskConfig, request_list_nodes, send_ping}
use torc_scheduler.Config.{YamlLibrary, read_task}
use torc_scheduler.Config.Settings.{DnsEntry, read_wait_time, read_dns_entry}
use torc_scheduler.Health.{for_node, expand_by, expand_services, prepare, run_first_round}
use torc_scheduler.Health.Kept.{kept, registered, health_round_lem}
use torc_scheduler.NodeList
use torc_scheduler.Prelude.{ℕ, String, ◌≡◌, refl, Bool, some, List, [], ◌∷◌, map, filter_by, ◌==◌}
use torc_scheduler.Prelude.Int.{ℤ}
use torc_scheduler.Prelude.Panic.{AllRead, for_all-AllRead}
use torc_scheduler.Records.{Node, Sla}
use torc_scheduler.Server.{State, StateRequestMsg}
use torc_scheduler.Server.Handlers
use torc_scheduler.Server.Serve.{dispatch}
use torc_scheduler.TaskList

abbrev is_slave : Node → Bool
is_slave node = node.node_type == "slave"

-- The tasks that a service stands for: itself, or one for each node, or one for each slave.
abbrev pub expanded_by : List Node → TaskConfig → Sla → List TaskConfig
expanded_by nodes c Sla.no_sla = c ∷ []
expanded_by nodes c Sla.singleton_each_node = map (for_node c) nodes
expanded_by nodes c Sla.singleton_each_slave = map (for_node c) (filter_by is_slave nodes)

abbrev pub expanded : List Node → List TaskConfig → List TaskConfig
expanded nodes cs = flat_map (λ (c : TaskConfig). expanded_by nodes c c.sla) cs

module _ (lib : YamlLibrary) (sm : StateManager) (now : ℤ) where
  Runs-nodes : (s : State) → Runs now request_list_nodes s (NodeList.get_nodes s.node_list) [] s
  unfolding request_list_nodes dispatch Handlers.handle_get_nodes
  Runs-nodes s = Runs-request now _ StateRequestMsg.get_nodes s _ refl

  Runs-expand_by :
      (c : TaskConfig) (k : Sla) (s : State)
      → Runs now (expand_by c k) s (expanded_by (NodeList.get_nodes s.node_list) c k) [] s
  unfolding expand_by
  Runs-expand_by c Sla.no_sla s = Runs-pure now (c ∷ []) s
  Runs-expand_by c Sla.singleton_each_node s =
      let nodes = NodeList.get_nodes s.node_list in
      Runs-bind now request_list_nodes _ s s s nodes _ [] [] (Runs-nodes s)
        (Runs-pure now (map (for_node c) nodes) s)
  Runs-expand_by c Sla.singleton_each_slave s =
      let nodes = NodeList.get_nodes s.node_list in
      Runs-bind now request_list_nodes _ s s s nodes _ [] [] (Runs-nodes s)
        (Runs-pure now (map (for_node c) (filter_by is_slave nodes)) s)

  Runs-expand_services :
      (services : List lib.Yaml) (cs : List TaskConfig) (s : State)
      → AllRead (read_task lib sm.master_ip) services cs
      → Runs now
          (expand_services lib sm services)
          s
          (expanded (NodeList.get_nodes s.node_list) cs)
          []
          s
  unfolding expand_services
  Runs-expand_services [] [] s h = Runs-pure now [] s
  Runs-expand_services [] (c ∷ cs) s h = absurd h
  Runs-expand_services (v ∷ services) [] s h = absurd h
  Runs-expand_services (v ∷ services) (c ∷ cs) s h =
      let nodes = NodeList.get_nodes s.node_list in
      let all = expanded nodes (c ∷ cs) in
      Runs-bind now (unwrap (read_task lib sm.master_ip v)) _ s s s c all [] []
        (Runs-unwrap now _ c s h.0)
        (Runs-bind now (expand_by c c.sla) _ s s s (expanded_by nodes c c.sla) all [] []
          (Runs-expand_by c c.sla s)
          (Runs-bind now (expand_services lib sm services) _ s s s (expanded nodes cs) all [] []
            (Runs-expand_services services cs s h.1) (Runs-pure now all s)))

  -- A configuration from which the health checker reads the services `cs` and these entries.
  pub record IsChecked (config : lib.Yaml) (cs : List TaskConfig) (entries : List DnsEntry)
      : Type 0 where
    pub wait_time : ℕ
    pub services : List lib.Yaml
    pub addons : List lib.Yaml
    pub waits : read_wait_time lib (lib.index config "healthcheck") ≡ some wait_time
    pub listed :
        lib.as_vec (lib.index (lib.index config "healthcheck") "system_services") ≡ some services
    pub read : AllRead (read_task lib sm.master_ip) services cs
    pub added : lib.as_vec (lib.index config "dns-addons") ≡ some addons
    pub read_addons : AllRead (read_dns_entry lib sm.master_ip) addons entries

  module _ (config : lib.Yaml) (cs : List TaskConfig) (entries : List DnsEntry)
      (r : IsChecked config cs entries) where
    Runs-ping : (s : State) → Runs now send_ping s tt [] s
    unfolding send_ping dispatch Handlers.handle_ping
    Runs-ping s = Runs-request now (λ _. tt) StateRequestMsg.ping s _ refl

    Runs-prepare :
        (s : State)
        → Runs now
            (prepare lib sm config)
            s
            (expanded (NodeList.get_nodes s.node_list) cs, entries)
            []
            s
    unfolding prepare
    Runs-prepare s =
        let tasks = expanded (NodeList.get_nodes s.node_list) cs in
        let result : List TaskConfig × List DnsEntry = (tasks, entries) in
        Runs-bind now send_ping _ s s s tt result [] [] (Runs-ping s) (
          Runs-bind now (unwrap _) _ s s s r.wait_time result [] []
            (Runs-unwrap now _ r.wait_time s r.waits)
            (Runs-bind now (unwrap _) _ s s s r.services result [] []
              (Runs-unwrap now _ r.services s r.listed)
              (Runs-bind now (expand_services lib sm r.services) _ s s s tasks result [] []
                (Runs-expand_services r.services cs s r.read)
                (Runs-bind now (unwrap _) _ s s s r.addons result [] []
                  (Runs-unwrap now _ r.addons s r.added)
                  (Runs-bind now (unwrap _) _ s s s entries result [] []
                    (Runs-unwrap now _ entries s (for_all-AllRead _ r.addons entries r.read_addons))
                    (Runs-pure now result s))))))

    -- In a quiet environment, with a configuration that can be read, the health checker ends its
    -- first round: it registers the controller and the entries, leaves every node and every task
    -- that is up, and requests exactly the services that were down, a service counting once for
    -- each node or each slave as its placement says.
    pub run_first_round_lem :
        (s : State)
        → (s' : State) × Runs now
            (run_first_round lib sm config)
            s
            tt
            (registered sm now entries)
            s'
          × ((n : String)
              → TaskList.get_task n s'.task_list
                ≡ kept sm now
                    (expanded (NodeList.get_nodes s.node_list) cs)
                    n
                    (TaskList.get_task n s.task_list))
          × (s'.node_list ≡ s.node_list)
    unfolding run_first_round
    run_first_round_lem s =
        let tasks = expanded (NodeList.get_nodes s.node_list) cs in
        let (s', runs, shown, nodes) = health_round_lem sm now tasks entries s in
        (
          s',
          Runs-bind now (prepare lib sm config) _ s s s' (tasks, entries) tt []
              (registered sm now entries) (Runs-prepare s) runs,
          shown,
          nodes,
        )
