-- ===== src/Program/Rounds.antt =====
-- The rounds of the syncing, the cleaning and the health checking thread, for the properties of
-- Client/Closed, and how the start of the program moves the world on.
use torc_scheduler.Background.{
  CleanConfig, is_overdue, sync_task, sync_round, clean_task, restart_task, clean_node, clean_round,
}
use torc_scheduler.Client.Closed.{Closed, Holds-if, Holds-for_each}
use torc_scheduler.Client.Moves.{
  moving, Moves, Moves-pure, Moves-bind, Moves-unwrap, Moves-for_each,
}
use torc_scheduler.Client.StateManager.{StateManager, TaskConfig}
use torc_scheduler.Config.{YamlLibrary, read_task}
use torc_scheduler.Config.Settings.{DnsEntry, read_wait_time, read_dns_entry, read_node}
use torc_scheduler.Health.{
  expand_by, expand_services, prepare, start_if_down, check_task, health_round,
}
use torc_scheduler.Prelude.{true, not, List, [], ◌∷◌, ◌==◌}
use torc_scheduler.Prelude.Panic.{for_all}
use torc_scheduler.Program.Messages.{
  Holds-send_ping, Holds-send_announce_task, Holds-request_list_running_tasks,
  Holds-send_remove_task_by_name, Holds-send_update_task_state, Holds-send_set_node_inactive,
  Holds-request_list_restart_tasks, Holds-request_list_nodes, Holds-request_task_state,
  Holds-send_start_task, Holds-send_add_node,
}
use torc_scheduler.Records.{Task, TaskState, Node, Sla}
use torc_scheduler.Start.{add_configured, load_node_list}

module _ (c : Closed) where
  module _ (sm : StateManager) where
    Holds-sync_task : (t : Task) → c.Holds (sync_task sm t)
    unfolding sync_task
    Holds-sync_task t = c.of_bind _ _ (c.of_emit _) (λ _.
        Holds-if c (t.controller == sm.my_name) _ _ (Holds-send_announce_task c sm t)
          (c.of_pure tt))

    pub Holds-sync_round : c.Holds (sync_round sm)
    unfolding sync_round
    Holds-sync_round =
        c.of_bind _ _ (Holds-request_list_running_tasks c)
          (λ tasks. Holds-for_each c (sync_task sm) tasks Holds-sync_task)

  module _ (sm : StateManager) (clean : CleanConfig) where
    Holds-clean_task : (t : Task) → c.Holds (clean_task sm clean t)
    unfolding clean_task
    Holds-clean_task t = Holds-if c (t.controller == sm.my_name) _ _ (c.of_pure tt) (
        c.of_bind _ _ c.of_read_clock (λ now.
          Holds-if c (is_overdue t.last_update clean.timeout now) _ _
            (c.of_bind _ _ (Holds-send_remove_task_by_name c t.name) (λ _. c.of_emit _))
            (c.of_pure tt)))

    Holds-restart_task : (t : Task) → c.Holds (restart_task sm clean t)
    unfolding restart_task
    Holds-restart_task t = Holds-if c (not (t.controller == sm.my_name)) _ _ (c.of_pure tt) (
        c.of_bind _ _ c.of_read_clock (λ now.
          Holds-if c (is_overdue t.last_update clean.restart_delay now) _ _
            (Holds-send_update_task_state c t.name TaskState.requested) (c.of_pure tt)))

    Holds-clean_node : (v : Node) → c.Holds (clean_node clean v)
    unfolding clean_node
    Holds-clean_node v = Holds-if c (not v.active) _ _ (c.of_pure tt) (
        c.of_bind _ _ c.of_read_clock (λ now.
          Holds-if c (is_overdue v.last_seen clean.timeout now) _ _
            (Holds-send_set_node_inactive c v.name) (c.of_pure tt)))

    pub Holds-clean_round : c.Holds (clean_round sm clean)
    unfolding clean_round
    Holds-clean_round = c.of_bind _ _ (Holds-request_list_running_tasks c) (λ running.
        c.of_bind _ _ (Holds-for_each c (clean_task sm clean) running Holds-clean_task) (λ _.
          c.of_bind _ _ (Holds-request_list_restart_tasks c) (λ waiting.
            c.of_bind _ _ (Holds-for_each c (restart_task sm clean) waiting Holds-restart_task)
              (λ _.
                c.of_bind _ _ (Holds-request_list_nodes c)
                  (λ nodes. Holds-for_each c (clean_node clean) nodes Holds-clean_node)))))

  module _ (sm : StateManager) where
    Holds-start_if_down : (t : TaskConfig) (k : TaskState) → c.Holds (start_if_down sm t k)
    Holds-start_if_down t TaskState.not_running = Holds-send_start_task c sm t true
    Holds-start_if_down t _ = c.of_pure tt

    Holds-check_task : (t : TaskConfig) → c.Holds (check_task sm t)
    unfolding check_task
    Holds-check_task t =
        c.of_bind _ _ (Holds-request_task_state c t.name) (λ k. Holds-start_if_down t k)

    pub Holds-health_round :
        (tasks : List TaskConfig) (entries : List DnsEntry)
        → c.Holds (health_round sm tasks entries)
    unfolding health_round
    Holds-health_round tasks entries =
        c.of_bind _ _ (Holds-for_each c (check_task sm) tasks Holds-check_task) (λ _.
          c.of_bind _ _ (c.of_emit _) (λ _. Holds-for_each c _ entries (λ entry. c.of_emit _)))

Moves-expand_by : (c : TaskConfig) (sla : Sla) → Moves (expand_by c sla)
unfolding expand_by
Moves-expand_by c Sla.no_sla = Moves-pure _
Moves-expand_by c Sla.singleton_each_node =
    Moves-bind _ _ (Holds-request_list_nodes moving) (λ nodes. Moves-pure _)
Moves-expand_by c Sla.singleton_each_slave =
    Moves-bind _ _ (Holds-request_list_nodes moving) (λ nodes. Moves-pure _)

module _ (lib : YamlLibrary) (sm : StateManager) where
  Moves-expand_services : (services : List lib.Yaml) → Moves (expand_services lib sm services)
  unfolding expand_services
  Moves-expand_services [] = Moves-pure []
  Moves-expand_services (service ∷ rest) =
      Moves-bind _ _ (Moves-unwrap (read_task lib sm.master_ip service)) (λ c.
        Moves-bind _ _ (Moves-expand_by c c.sla)
          (λ tasks. Moves-bind _ _ (Moves-expand_services rest) (λ more. Moves-pure _)))

  open lib use {Yaml, index, as_vec}

  pub Moves-prepare : (config : Yaml) → Moves (prepare lib sm config)
  unfolding prepare
  Moves-prepare config =
      let checked = index config "healthcheck" in
      Moves-bind _ _ (Holds-send_ping moving) (λ _.
        Moves-bind _ _ (Moves-unwrap (read_wait_time lib checked)) (λ wait_time.
          Moves-bind _ _ (Moves-unwrap (as_vec (index checked "system_services"))) (λ services.
            Moves-bind _ _ (Moves-expand_services services) (λ tasks.
              Moves-bind _ _ (Moves-unwrap (as_vec (index config "dns-addons"))) (λ addons.
                Moves-bind _ _ (Moves-unwrap (for_all (read_dns_entry lib sm.master_ip) addons))
                  (λ entries. Moves-pure (tasks, entries)))))))

  Moves-add_configured : (node : Yaml) → Moves (add_configured lib sm node)
  unfolding add_configured
  Moves-add_configured node =
      Moves-bind _ _ (Moves-unwrap (read_node lib sm.master_ip node))
        (λ c. Holds-send_add_node moving c)

  pub Moves-load_node_list : (config : Yaml) → Moves (load_node_list lib sm config)
  unfolding load_node_list
  Moves-load_node_list config =
      Moves-bind _ _ (Moves-unwrap (as_vec (index config "nodes")))
        (λ nodes. Moves-for_each (add_configured lib sm) nodes Moves-add_configured)
