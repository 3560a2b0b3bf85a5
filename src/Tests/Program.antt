-- ===== src/Tests/Program.antt =====
-- The whole program.
use torc_scheduler.Api.Routes.{Request}
use torc_scheduler.Background.{sync_round}
use torc_scheduler.Background.Sync.{sync_round_lem}
use torc_scheduler.Client.{World, Outcome, ok}
use torc_scheduler.Client.StateManager.{StateManager, TaskConfig}
use torc_scheduler.Collaborator.{Effect}
use torc_scheduler.Prelude.{◌≡◌, ◌⊎◌, refl, ap, ◌∙◌, true, false, none, some, List, [], ◌∷◌, ◌++◌}
use torc_scheduler.Prelude.Int.{ℤ, pos}
use torc_scheduler.Program.{Program, Phase, enters, is_over, Setting, Step, Reaches, start_threads}
use torc_scheduler.Program.Ended.{GoesOn, program_stays_up}
use torc_scheduler.Program.Over.{EndsNext, unknown_node_ends_program}
use torc_scheduler.Program.Reached.{program_serves_messages}
use torc_scheduler.Health.{health_round}
use torc_scheduler.Program.Lost.{refused_launch_loses_task}
use torc_scheduler.Records.{Task, TaskState}
use torc_scheduler.TaskList
use torc_scheduler.Client.Quiet.{IsQuiet, Runs}
use torc_scheduler.Config.Settings.{DnsEntry}
use torc_scheduler.Tests.Offers.{
  requested_parse, requesting_names, first_placement, first_placement_is_planned,
}
use torc_scheduler.Server.{State, StateRequestMsg, start_state}
use torc_scheduler.Server.Refinement.{Shows, task_history, node_history}
use torc_scheduler.Server.Serve.{serve_all}
use torc_scheduler.Server.Validity.{IsValidIfAlive}
use torc_scheduler.Start.{main}
use torc_scheduler.Start.Loaded.{new_state_manager_lem}
use torc_scheduler.Tests.Data.{
  sm, wanted, requesting, offer, second_offer, cluster, codec, no_json, clean_config, quiet_world,
  quiet_world-IsQuiet,
}
use torc_scheduler.Tests.Outside.{router, a_name_is_given, spine_is_missing}
use torc_scheduler.Tests.Reports.{cluster_names, has_a_name, has_an_id}
use torc_scheduler.Tests.Starting.{
  files, command_line, of_command_line, config-IsReadable, empty_world-IsAlone,
}
use torc_scheduler.Tests.Yaml.{yaml, config, leaf_config, monitor_config}

abbrev setting_of : StateManager → Setting
setting_of manager = record {
  yaml = yaml;
  json = no_json;
  codec = codec;
  router = router;
  sm = manager;
  config = config;
  clean_config = clean_config;
}

abbrev empty_world : World
empty_world = record (quiet_world cluster) { server = none }

program_starts :
    (w : World) × (main yaml files "uuid" command_line empty_world ≡ (ok of_command_line, w))
unfolding main
program_starts =
    let (_, w, ran, _, _, _, _) =
      new_state_manager_lem yaml (pos 1000) files "uuid" "10.0.0.1" "10.0.0.1" "config.yml" config
        (leaf_config ∷ []) config-IsReadable empty_world empty_world-IsAlone in
    (w, ran)

abbrev started : Program
started = start_threads program_starts.0

-- A round of the syncing thread.
abbrev synced : StateManager → Program → Program
synced manager p =
    let (r, w) = sync_round manager p.world in record p { world = w; syncing = enters r }

program_serves_messages_example :
    (msgs : List (ℤ × StateRequestMsg)) × (calls : List Effect) × ((synced of_command_line
        started).world.server
      ≡ serve_all msgs (some (start_state of_command_line.master_ip of_command_line.my_name)))
    × ((synced of_command_line started).world.trace ≡ [] ++ calls)
    × IsValidIfAlive (synced of_command_line started).world.server
    × Shows
        (λ n. task_history msgs n none)
        (λ n. node_history msgs n none)
        (synced of_command_line started).world.server
program_serves_messages_example =
    program_serves_messages (setting_of of_command_line) files "uuid" command_line empty_world
      program_starts.0 (synced of_command_line started) program_starts.1
      (Reaches.after (Reaches.here started) (Step.syncs started refl refl))

-- The API and the health checker are in their loops.
abbrev running : Program
running = record (start_threads (quiet_world cluster)) {
  api = Phase.looping tt;
  health = Phase.looping (monitor_config ∷ [], []);
}

running-GoesOn : GoesOn (monitor_config ∷ [], []) running
running-GoesOn = record { health = refl; syncing = refl; cleaning = refl }

synced_is_alive : (s : State) × ((synced sm running).world.server ≡ some s)
synced_is_alive =
    let (s, runs, _, _) =
      sync_round_lem sm (pos 1000) cluster cluster_names has_a_name
        (λ n t e running own. has_an_id n t e) in
    let (w, ran, _, quiet, _) = runs.at (quiet_world cluster) (quiet_world-IsQuiet cluster) in
    (s, ap (λ (r : Outcome (Unit {0}) × World). r.1.server) ran ∙ quiet.serving)

program_stays_up_example :
    GoesOn (monitor_config ∷ [], []) (synced sm running) × (is_over (synced sm running) ≡ false)
program_stays_up_example =
    program_stays_up (setting_of sm) (monitor_config ∷ [], []) running (synced sm running)
      synced_is_alive.0 running-GoesOn
      (Reaches.after (Reaches.here running) (Step.syncs running refl refl)) synced_is_alive.1

abbrev spine_request : Request
spine_request = record { query = some "name=spine1"; body = none }

unknown_node_ends_program_example :
    (q : Program) × Step (setting_of sm) running q
    × ((r : Program)
        → Reaches (setting_of sm) q r
        → (r.world.server ≡ none) × ((is_over r ≡ true) ⊎ EndsNext (setting_of sm) r))
unknown_node_ends_program_example =
    unknown_node_ends_program (setting_of sm) monitor_config [] [] (pos 1000) cluster running
      "/node/startup" spine_request (quiet_world-IsQuiet cluster) refl refl refl a_name_is_given
      spine_is_missing

-- Mesos refuses what it is asked.
abbrev refusing_world : World
refusing_world = record (quiet_world requesting) {
  env = record { events = λ _. []; accepts = λ _. false };
}

refusing_world-IsQuiet : IsQuiet (pos 1000) requesting refusing_world
refusing_world-IsQuiet = record {
  events = λ n. refl;
  time = refl;
  serving = refl;
  unpoisoned = refl;
}

abbrev scheduling : Program
scheduling = record (start_threads refusing_world) { scheduler = Phase.looping tt }

refused_launch_loses_task_example :
    (q : Program) × (s' : State) × (u : Task) × Step (setting_of sm) scheduling q
    × ((r : Program) → Reaches (setting_of sm) q r → r.scheduler ≡ Phase.stopped)
    × (is_over q ≡ false)
    × IsQuiet (pos 1000) s' q.world
    × (TaskList.get_task "monitor" s'.task_list ≡ some u)
    × (u.state ≡ TaskState.accepted)
    × ((tasks : List TaskConfig) (entries : List DnsEntry)
        → (es : List Effect) × (s2 : State) × Runs
            (pos 1000)
            (health_round sm tasks entries)
            s'
            tt
            es
            s2
          × (TaskList.get_task "monitor" s2.task_list ≡ some u))
refused_launch_loses_task_example =
    refused_launch_loses_task (setting_of sm) (pos 1000) requesting offer (second_offer ∷ [])
      scheduling first_placement wanted refl refl refusing_world-IsQuiet requesting_names
      requested_parse first_placement_is_planned refl refl
