-- ===== src/Api/Deleted.antt =====
-- From the request to delete a service in src/api/run_api.rs to the report of its end in
-- src/scheduler/scheduler_impl.rs.
use mathlib.Core.List.{append-nil}
use torc_scheduler.Api.{JsonCodec, json_response, argument_of, handle_service_delete}
use torc_scheduler.Client.{World, ok, try_call}
use torc_scheduler.Client.Lock.{is_poisoned, locked, locked_free}
use torc_scheduler.Client.Quiet.{IsQuiet}
use torc_scheduler.Client.StateManager.{StateManager, kill_task, send_kill_task_by_name}
use torc_scheduler.Collaborator.{kill}
use torc_scheduler.Mesos.{TaskStatus}
use torc_scheduler.Prelude.{
  String, ◌≡◌, refl, ap, sym, ◌∙◌, true, false, Option, some, [], ◌∷◌, ◌++◌, is_empty, ◌==◌,
  if◌then◌else◌,
}
use torc_scheduler.Prelude.Int.{ℤ}
use torc_scheduler.Scheduler.Update.{JsonLibrary, update}
use torc_scheduler.Scheduler.Update.Outcome.{ended, HasEnded, update-ended}
use torc_scheduler.Server.{State}
use torc_scheduler.TaskList

asked_to_kill : World → String → World
asked_to_kill w n = record w { trace = w.trace ++ kill n ∷ [] }

send_kill_lem :
    (w : World) (n : String)
    → w.has_client ≡ true
    → send_kill_task_by_name n w ≡ (ok tt, asked_to_kill w n)
unfolding send_kill_task_by_name kill_task try_call asked_to_kill
send_kill_lem w n e = rw e refl

handle_service_delete_lem :
    (codec : JsonCodec) (sm : StateManager) (query : Option String) (w : World)
    → is_empty (argument_of "name=" 5 query) ≡ false
    → w.has_client ≡ true
    → w.poisoned ≡ []
    → handle_service_delete codec sm query w ≡ (
      ok (json_response (codec.encode_result "done")),
      asked_to_kill w (argument_of "name=" 5 query),
    )
unfolding handle_service_delete
handle_service_delete_lem codec sm query w named connected sound =
    let name = argument_of "name=" 5 query in
    let killed : locked "service_delete_state_manager" (send_kill_task_by_name name) w
        ≡ (ok tt, asked_to_kill w name) =
      locked_free "service_delete_state_manager" (send_kill_task_by_name name) w _
        (ap (is_poisoned "service_delete_state_manager") sound) (send_kill_lem w name connected) in
    rw (named, killed) refl

-- In a quiet environment with a mesos client: a request to delete a service is answered and asks
-- mesos to kill its task, but changes no state; the report of its end then sets the task to restart
-- if it is an own system service and no job, and removes it otherwise; every other task is left
-- alone and nothing else is called.
pub deleted_service_ends :
    (codec : JsonCodec) (lib : JsonLibrary) (sm : StateManager) (now : ℤ) (s : State)
    (query : Option String) (status : TaskStatus) (w : World)
    → IsQuiet now s w
    → w.has_client ≡ true
    → is_empty (argument_of "name=" 5 query) ≡ false
    → status.task_id ≡ argument_of "name=" 5 query
    → HasEnded status.state
    → (w1 : World) × (w2 : World) × (s2 : State) × (handle_service_delete codec sm query w
        ≡ (ok (json_response (codec.encode_result "done")), w1))
      × (w1.server ≡ some s)
      × (update lib status w1 ≡ (ok tt, w2))
      × (w2.trace ≡ w.trace ++ kill status.task_id ∷ [])
      × (w2.server ≡ some s2)
      × ((n : String)
          → TaskList.get_task n s2.task_list ≡ (
              if status.task_id == n
              then ended s.my_name now (TaskList.get_task n s.task_list)
              else TaskList.get_task n s.task_list))
unfolding asked_to_kill
deleted_service_ends codec lib sm now s query status w q connected named same ends =
    let w1 = asked_to_kill w (argument_of "name=" 5 query) in
    let q1 : IsQuiet now s w1 = record {
      events = q.events;
      time = q.time;
      serving = q.serving;
      unpoisoned = q.unpoisoned;
    } in
    let (s2, runs, shown, _) = update-ended lib now s status ends in
    let (w2, ran, traced, q2, _) = runs.at w1 q1 in
    (
      w1,
      w2,
      s2,
      handle_service_delete_lem codec sm query w named connected q.unpoisoned,
      q.serving,
      ran,
      traced ∙ append-nil w1.trace ∙ ap (λ n. w.trace ++ kill n ∷ []) (sym same),
      q2.serving,
      shown,
    )
