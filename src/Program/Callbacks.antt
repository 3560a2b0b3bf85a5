-- ===== src/Program/Callbacks.antt =====
-- How the callbacks of src/scheduler/scheduler_impl.rs move the world on.
use torc_scheduler.Client.{Exec}
use torc_scheduler.Client.Moves.{
  moving, Moves, Moves-pure, Moves-panic, Moves-bind, Moves-if, Moves-unwrap, Moves-call_or_panic,
  Moves-set_mesos_client,
}
use torc_scheduler.Client.StateManager.{StateManager}
use torc_scheduler.Collaborator.{decline, reconcile}
use torc_scheduler.Mesos.{Offer, TaskInfo, MesosTaskState, TaskStatus}
use torc_scheduler.Prelude.{String, Option, none, some, not, ◌||◌, List, [], ◌∷◌, is_empty}
use torc_scheduler.Program.{Callback, callback, scheduler_enters}
use torc_scheduler.Program.Messages.{
  Holds-send_ping, Holds-request_list_requested_tasks, Holds-request_is_node_active,
  Holds-send_update_node, Holds-request_task_state, Holds-send_update_task_state,
  Holds-send_update_task_node_name, Holds-send_update_task_info, Holds-request_node,
  Holds-request_is_restartable_task, Holds-send_restart_task, Holds-send_remove_task_by_name,
}
use torc_scheduler.Records.{Task, TaskState, same_state}
use torc_scheduler.Scheduler
use torc_scheduler.Scheduler.Container.{all_parameters, parameters_for}
use torc_scheduler.Scheduler.Offers.{
  Seen, Answers, no_answers, nothing_seen, answer, note_node, match_task, match_one, match_offers,
  accept_task, dependency_runs, is_elsewhere, is_too_small, read_offer, has_any, send_answers,
  offers,
}
use torc_scheduler.Scheduler.Update.{
  JsonLibrary, head, first_of_array, string_at, ip_or_empty, own_or_node_ip, handle_inspect_data,
  task_started, task_ended, react, update,
}
use torc_scheduler.Start.{run_scheduler}

Moves-note_node : (seen : Seen) (slave : String) → Moves (note_node seen slave)
unfolding note_node
Moves-note_node seen slave =
    Moves-bind _ _ (Holds-request_is_node_active moving seen.node_name) (λ active.
      Moves-if (not active) _ _
        (Holds-send_update_node moving seen.node_name seen.node_type seen.node_function slave)
        (Moves-pure tt))

pub Moves-dependency_runs : (t : Task) → Moves (dependency_runs t)
unfolding dependency_runs
Moves-dependency_runs t = Moves-if (is_empty t.dependent_service) _ _ (Moves-pure _) (
    Moves-bind _ _ (Holds-request_task_state moving t.dependent_service)
      (λ k. Moves-pure (same_state k TaskState.running)))

module _ (slave_id : String) (seen : Seen) where
  pub Moves-accept_task : (t : Task) → Moves (accept_task slave_id seen t)
  unfolding accept_task
  Moves-accept_task t =
      Moves-bind _ _ (Holds-send_update_task_state moving t.name TaskState.accepted) (λ _.
        Moves-bind _ _
          (Moves-if (not (is_empty t.node_type) || not (is_empty t.node_function)) _ _
            (Holds-send_update_task_node_name moving t.name seen.node_name) (Moves-pure tt))
          (λ _.
            Moves-bind _ _ (Moves-unwrap (parameters_for (all_parameters t))) (λ ps. Moves-pure _)))

  Moves-match_one :
      (t : Task) (next : Exec (Option TaskInfo))
      → Moves next
      → Moves (match_one slave_id seen t next)
  unfolding match_one
  Moves-match_one t next p = Moves-if (is_elsewhere seen t) _ _ p (
      Moves-bind _ _ (Moves-dependency_runs t) (λ runs. Moves-if (not runs) _ _ p (
        Moves-if (is_too_small seen t) _ _ p
          (Moves-bind _ _ (Moves-accept_task t) (λ info. Moves-pure (some info))))))

  Moves-match_task : (ts : List Task) → Moves (match_task slave_id seen ts)
  unfolding match_task
  Moves-match_task [] = Moves-pure none
  Moves-match_task (t ∷ ts) = Moves-match_one t (match_task slave_id seen ts) (Moves-match_task ts)

Moves-match_offers :
    (slave_id : String) (ts : List Task) (os : List Offer) (seen : Seen) (a : Answers)
    → Moves (match_offers slave_id ts os seen a)
unfolding match_offers
Moves-match_offers slave_id ts [] seen a = Moves-pure a
Moves-match_offers slave_id ts (o ∷ os) seen a =
    let seen' = read_offer o seen in
    Moves-bind _ _ (Moves-note_node seen' o.slave_id) (λ _.
      Moves-bind _ _ (Moves-match_task slave_id seen' ts)
        (λ found. Moves-match_offers slave_id ts os seen' (answer o.id found a)))

Moves-send_answers : (a : Answers) → Moves (send_answers a)
unfolding send_answers
Moves-send_answers a =
    Moves-bind _ _ (Moves-if (has_any a.tasks_to_start) _ _ (Moves-call_or_panic _) (Moves-pure tt))
      (λ _. Moves-if (has_any a.offers_to_decline) _ _ (Moves-call_or_panic _) (Moves-pure tt))

Moves-offers : (os : List Offer) → Moves (offers os)
unfolding offers
Moves-offers [] = Moves-panic
Moves-offers (o ∷ os) = Moves-bind _ _ (Holds-request_list_requested_tasks moving) (λ requested.
    Moves-bind _ _ (Moves-match_offers o.slave_id requested (o ∷ os) nothing_seen no_answers)
      (λ a. Moves-send_answers a))

Moves-task_ended : (n : String) → Moves (task_ended n)
unfolding task_ended
Moves-task_ended n = Moves-bind _ _ (Holds-request_is_restartable_task moving n) (λ restartable.
    Moves-if restartable _ _ (Holds-send_restart_task moving n)
      (Holds-send_remove_task_by_name moving n))

module _ (lib : JsonLibrary) where
  open lib use {Json, from_str, as_array, as_string, find_path}

  Moves-first_of_array : (v : Json) → Moves (first_of_array lib v)
  Moves-first_of_array v =
      Moves-bind _ _ (Moves-unwrap (as_array v)) (λ array. Moves-unwrap (head array))

  Moves-string_at : (v : Json) (path : List String) → Moves (string_at lib v path)
  unfolding string_at
  Moves-string_at v path = Moves-bind _ _ (Moves-first_of_array v) (λ first.
      Moves-bind _ _ (Moves-unwrap (find_path first path))
        (λ found. Moves-unwrap (as_string found)))

  Moves-ip_or_empty : (o : Option Json) → Moves (ip_or_empty lib o)
  Moves-ip_or_empty none = Moves-pure ""
  Moves-ip_or_empty (some ip) = Moves-unwrap (as_string ip)

  Moves-own_or_node_ip : (ip n : String) → Moves (own_or_node_ip lib ip n)
  unfolding own_or_node_ip
  Moves-own_or_node_ip ip n =
      Moves-if (is_empty ip) _ _
        (Moves-bind _ _ (Holds-request_node moving n) (λ node. Moves-pure _)) (Moves-pure ip)

  Moves-handle_inspect_data : (n text slave : String) → Moves (handle_inspect_data lib n text slave)
  unfolding handle_inspect_data
  Moves-handle_inspect_data n text slave = Moves-bind _ _ (Moves-unwrap (from_str text)) (λ v.
      Moves-bind _ _ (Moves-string_at v ("Id" ∷ [])) (λ id.
        Moves-bind _ _ (Moves-string_at v ("Config" ∷ "Hostname" ∷ [])) (λ host.
          Moves-bind _ _ (Moves-first_of_array v) (λ first.
            Moves-bind _ _
              (Moves-ip_or_empty
                (find_path first ("NetworkSettings" ∷ "Networks" ∷ "torc" ∷ "IPAddress" ∷ [])))
              (λ given.
                Moves-bind _ _ (Moves-own_or_node_ip given host)
                  (λ ip. Holds-send_update_task_info moving n id ip slave))))))

  Moves-task_started : (status : TaskStatus) → Moves (task_started lib status)
  unfolding task_started
  Moves-task_started status = Moves-bind _ _ (Moves-unwrap status.text) (λ text.
      Moves-bind _ _ (Moves-handle_inspect_data status.task_id text status.slave_id)
        (λ _. Holds-send_update_task_state moving status.task_id TaskState.running))

  Moves-react : (k : MesosTaskState) (status : TaskStatus) → Moves (react lib k status)
  Moves-react MesosTaskState.task_running status = Moves-task_started status
  Moves-react MesosTaskState.other status = Moves-pure tt
  Moves-react _ status = Moves-task_ended status.task_id

  pub Moves-callback : (c : Callback) → Moves (callback lib c)
  unfolding update Scheduler.subscribed Scheduler.inverse_offers Scheduler.rescind Scheduler.message
      Scheduler.failure Scheduler.error Scheduler.heartbeat Scheduler.disconnected
  Moves-callback Callback.subscribed =
      Moves-bind _ _ (Moves-set_mesos_client _) (λ _. Moves-call_or_panic reconcile)
  Moves-callback (Callback.offers os) = Moves-offers os
  Moves-callback (Callback.inverse_offers ids) = Moves-call_or_panic (decline ids)
  Moves-callback (Callback.update status) = Moves-react status.state status
  Moves-callback _ = Moves-pure tt

pub Moves-scheduler_enters : (sm : StateManager) → Moves (scheduler_enters sm)
unfolding run_scheduler
Moves-scheduler_enters sm =
    Moves-bind _ _ (Moves-bind _ _ (Holds-send_ping moving) (λ _. Moves-pure _))
      (λ _. Moves-pure tt)
