-- ===== src/Scheduler/Offers/Answerless.antt =====
-- The loops of `offers` of src/scheduler/scheduler_impl.rs answer no offer: they prepare
-- what `send_answers` sends.
use torc_scheduler.Client.{Exec}
use torc_scheduler.Client.Answerless.{
  Answerless, Answerless-pure, Answerless-unwrap, Answerless-if, Answerless-bind,
  Answerless-request,
}
use torc_scheduler.Client.StateManager.{
  request_list_requested_tasks, request_is_node_active, send_update_node, request_task_state,
  send_update_task_state, send_update_task_node_name,
}
use torc_scheduler.Mesos.{Offer, TaskInfo}
use torc_scheduler.Prelude.{String, Option, none, some, not, ◌||◌, List, [], ◌∷◌, is_empty}
use torc_scheduler.Records.{Task, TaskState, same_state}
use torc_scheduler.Scheduler.Container.{all_parameters, parameters_for}
use torc_scheduler.Scheduler.Offers.{
  Seen, Answers, answer, note_node, match_task, match_one, match_offers, accept_task,
  dependency_runs, is_elsewhere, is_too_small, read_offer,
}
use torc_scheduler.Server.{StateRequestMsg}

pub request_list_requested_tasks-Answerless : Answerless request_list_requested_tasks
unfolding request_list_requested_tasks
request_list_requested_tasks-Answerless = Answerless-request StateRequestMsg.get_requested_tasks _

note_node-Answerless : (seen : Seen) (slave : String) → Answerless (note_node seen slave)
unfolding note_node request_is_node_active send_update_node
note_node-Answerless seen slave =
    Answerless-bind _ _ (Answerless-request (StateRequestMsg.get_is_node_active seen.node_name) _)
      (λ active.
        Answerless-if (not active) _ _
          (Answerless-request
            (StateRequestMsg.update_node seen.node_name seen.node_type seen.node_function slave) _)
          (Answerless-pure tt))

dependency_runs-Answerless : (t : Task) → Answerless (dependency_runs t)
unfolding dependency_runs request_task_state
dependency_runs-Answerless t =
    Answerless-if (is_empty t.dependent_service) _ _ (Answerless-pure _) (
      Answerless-bind _ _
        (Answerless-request (StateRequestMsg.get_task_state t.dependent_service) _)
        (λ k. Answerless-pure (same_state k TaskState.running)))

module _ (slave_id : String) (seen : Seen) where
  accept_task-Answerless : (t : Task) → Answerless (accept_task slave_id seen t)
  unfolding accept_task send_update_task_state send_update_task_node_name
  accept_task-Answerless t =
      Answerless-bind _ _
        (Answerless-request (StateRequestMsg.update_task_state t.name TaskState.accepted) _)
        (λ _.
          Answerless-bind _ _
            (Answerless-if (not (is_empty t.node_type) || not (is_empty t.node_function)) _ _
              (Answerless-request (StateRequestMsg.update_task_node_name t.name seen.node_name) _)
              (Answerless-pure tt))
            (λ _.
              Answerless-bind _ _ (Answerless-unwrap (parameters_for (all_parameters t)))
                (λ ps. Answerless-pure _)))

  match_one-Answerless :
      (t : Task) (next : Exec (Option TaskInfo))
      → Answerless next
      → Answerless (match_one slave_id seen t next)
  unfolding match_one
  match_one-Answerless t next p = Answerless-if (is_elsewhere seen t) _ _ p (
      Answerless-bind _ _ (dependency_runs-Answerless t) (λ runs. Answerless-if (not runs) _ _ p (
        Answerless-if (is_too_small seen t) _ _ p
          (Answerless-bind _ _ (accept_task-Answerless t) (λ info. Answerless-pure (some info))))))

  match_task-Answerless : (ts : List Task) → Answerless (match_task slave_id seen ts)
  unfolding match_task
  match_task-Answerless [] = Answerless-pure none
  match_task-Answerless (t ∷ ts) =
      match_one-Answerless t (match_task slave_id seen ts) (match_task-Answerless ts)

pub match_offers-Answerless :
    (slave_id : String) (ts : List Task) (os : List Offer) (seen : Seen) (a : Answers)
    → Answerless (match_offers slave_id ts os seen a)
unfolding match_offers
match_offers-Answerless slave_id ts [] seen a = Answerless-pure a
match_offers-Answerless slave_id ts (o ∷ os) seen a =
    let seen' = read_offer o seen in
    Answerless-bind _ _ (note_node-Answerless seen' o.slave_id) (λ _.
      Answerless-bind _ _ (match_task-Answerless slave_id seen' ts)
        (λ found. match_offers-Answerless slave_id ts os seen' (answer o.id found a)))
