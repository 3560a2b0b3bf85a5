-- ===== src/Tests/Reports.antt =====
-- What becomes of the reports of mesos, and a round of the syncing thread.
use mathlib.Core.Option
use torc_scheduler.Background.{clean_round, sync_round, is_overdue}
use torc_scheduler.Background.Clean.{deleted_routes}
use torc_scheduler.Background.Sync.{refreshed, registrations, sync_round_lem}
use torc_scheduler.Client.Dead.{Dies}
use torc_scheduler.Client.Quiet.{Runs}
use torc_scheduler.HashMap.{get, values}
use torc_scheduler.HashMap.Keyed.{member-values}
use torc_scheduler.Machine.I64.{add_i64}
use torc_scheduler.Mesos.{MesosTaskState, TaskStatus}
use torc_scheduler.NodeList
use torc_scheduler.Prelude.{
  String, ◌≡◌, refl, inl, inr, true, false, Option, none, some, List, [], ◌∷◌, Member, ap, ◌∙◌,
  is_empty, ◌==◌, if◌then◌else◌, subst, sym,
}
use torc_scheduler.Prelude.Int.{pos}
use torc_scheduler.Records.{Task, TaskState}
use torc_scheduler.Scheduler.Update.{JsonLibrary, update}
use torc_scheduler.Scheduler.Update.Again.{ended_service_is_requested_again}
use torc_scheduler.Scheduler.Update.Fatal.{update-Dies}
use torc_scheduler.Scheduler.Update.Running.{Inspected, registers, with_running, update-running}
use torc_scheduler.Server.{State}
use torc_scheduler.Server.Validity.{IsValid}
use torc_scheduler.TaskList
use torc_scheduler.TaskList.View as TaskView
use torc_scheduler.TaskList.{with_state, with_last_update}
use torc_scheduler.Tests.Data.{
  sm, web, monitor, leaf, cluster, clean_config, quiet_world, quiet_world-IsQuiet,
}

pub cluster_names : IsValid cluster
unfolding get
cluster_names = record { tasks = (refl, refl, (refl, refl, tt)); nodes = (refl, refl, tt) }

is_web_or_monitor :
    (n : String) (t : Task)
    → TaskList.get_task n cluster.task_list ≡ some t
    → (t.name ≡ n) × Member t (web ∷ monitor ∷ [])
unfolding TaskList.get_task values
is_web_or_monitor n t e =
    let same = TaskView.get_task_name cluster.task_list cluster_names.tasks n t e in
    (
      same,
      (member-values TaskView.task_name t cluster.task_list cluster_names.tasks).1
          (subst (λ m. get m cluster.task_list ≡ some t) (sym same) e),
    )

pub has_a_name :
    (n : String) (t : Task) → TaskList.get_task n cluster.task_list ≡ some t → is_empty n ≡ false
has_a_name n t e =
    let (same, listed) = is_web_or_monitor n t e in
    elim listed [
      | inl w ↦ ap is_empty (sym same ∙ ap (λ (u : Task). u.name) w)
      | inr (inl m) ↦ ap is_empty (sym same ∙ ap (λ (u : Task). u.name) m)
      | inr (inr none_left) ↦ absurd none_left
    ]

pub has_an_id :
    (n : String) (t : Task) → TaskList.get_task n cluster.task_list ≡ some t → is_empty t.id ≡ false
has_an_id n t e =
    let (same, listed) = is_web_or_monitor n t e in
    elim listed [
      | inl w ↦ ap (λ (u : Task). is_empty u.id) w
      | inr (inl m) ↦ ap (λ (u : Task). is_empty u.id) m
      | inr (inr none_left) ↦ absurd none_left
    ]

sync_round_lem_example :
    (s' : State) × Runs
      (pos 1000)
      (sync_round sm)
      cluster
      tt
      (registrations sm (pos 1000) cluster)
      s'
    × ((n : String)
        → TaskList.get_task n s'.task_list
          ≡ refreshed sm (pos 1000) (TaskList.get_task n cluster.task_list))
    × (s'.node_list ≡ cluster.node_list)
sync_round_lem_example =
    sync_round_lem sm (pos 1000) cluster cluster_names has_a_name
      (λ n t e runs own. has_an_id n t e)

-- The inspection of a container without an address of its own.
abbrev inspected : List String → Option String
inspected [] = none
inspected (key ∷ path) =
    if key == "Id" then some "e5f6" else if key == "Config" then some "leaf1" else none

abbrev pub json : JsonLibrary
json = record {
  Json = String;
  from_str = λ s. some s;
  as_array = λ j. some (j ∷ []);
  as_string = λ j. some j;
  find_path = λ j path. inspected path;
}

abbrev pub monitor_runs : TaskStatus
monitor_runs = record {
  task_id = "monitor";
  state = MesosTaskState.task_running;
  text = some "[{..}]";
  slave_id = "s1";
}

pub monitor-Inspected : Inspected json "[{..}]" "e5f6" "leaf1" ""
monitor-Inspected = record {
  json = "[{..}]";
  first = "[{..}]";
  rest = [];
  parsed = refl;
  listed = refl;
  id_at = ("e5f6", refl, refl);
  host_at = ("leaf1", refl, refl);
  ip_at = inl (refl, refl);
}

leaf_is_known : NodeList.get_node "leaf1" cluster.node_list ≡ some leaf
unfolding NodeList.get_node get
leaf_is_known = refl

update-running_example :
    (s' : State) × Runs
      (pos 1000)
      (update json monitor_runs)
      cluster
      tt
      (registers json (pos 1000) "10.0.0.1" (TaskList.get_task "monitor" s'.task_list))
      s'
    × ((m : String)
        → TaskList.get_task m s'.task_list ≡ (
            if "monitor" == m
            then Option.map
                (with_running json (pos 1000) "e5f6" "10.0.1.1" "s1")
                (TaskList.get_task m cluster.task_list)
            else TaskList.get_task m cluster.task_list))
    × (s'.node_list ≡ cluster.node_list)
update-running_example =
    update-running json (pos 1000) cluster monitor_runs "[{..}]" "e5f6" "leaf1" "" "10.0.1.1" refl
      refl monitor-Inspected (inr (refl, (leaf, leaf_is_known, refl)))

abbrev monitor_lost : TaskStatus
monitor_lost = record monitor_runs { state = MesosTaskState.task_lost; text = none }

monitor_is_stored : TaskList.get_task "monitor" cluster.task_list ≡ some monitor
unfolding TaskList.get_task get
monitor_is_stored = refl

restart_is_due : is_overdue (pos 1000) clean_config.restart_delay (pos 2000) ≡ true
unfolding add_i64
restart_is_due = refl

ended_service_is_requested_again_example :
    (s1 : State) × (s2 : State) × Runs (pos 1000) (update json monitor_lost) cluster tt [] s1
    × Runs
        (pos 2000)
        (clean_round sm clean_config)
        s1
        tt
        (deleted_routes sm clean_config (pos 2000) s1)
        s2
    × (TaskList.get_task "monitor" s2.task_list
        ≡ some (with_state TaskState.requested (with_last_update (pos 1000) monitor)))
ended_service_is_requested_again_example =
    ended_service_is_requested_again json sm clean_config (pos 1000) (pos 2000) cluster monitor_lost
      monitor cluster_names tt monitor_is_stored refl refl restart_is_due

-- A container on a host that is not in the list.
abbrev elsewhere : List String → Option String
elsewhere [] = none
elsewhere (key ∷ path) =
    if key == "Id" then some "e5f6" else if key == "Config" then some "spine1" else none

abbrev elsewhere_json : JsonLibrary
elsewhere_json = record json { find_path = λ j path. elsewhere path }

elsewhere-Inspected : Inspected elsewhere_json "[{..}]" "e5f6" "spine1" ""
elsewhere-Inspected = record {
  json = "[{..}]";
  first = "[{..}]";
  rest = [];
  parsed = refl;
  listed = refl;
  id_at = ("e5f6", refl, refl);
  host_at = ("spine1", refl, refl);
  ip_at = inl (refl, refl);
}

spine_is_unknown : NodeList.get_node "spine1" cluster.node_list ≡ none
unfolding NodeList.get_node get
spine_is_unknown = refl

update-Dies_example : Dies (update elsewhere_json monitor_runs) (quiet_world cluster)
update-Dies_example =
    update-Dies elsewhere_json (pos 1000) cluster monitor_runs "[{..}]" "e5f6" "spine1"
      (quiet_world cluster) (quiet_world-IsQuiet cluster) refl refl elsewhere-Inspected
      spine_is_unknown
