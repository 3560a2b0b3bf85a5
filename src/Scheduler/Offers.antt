-- ===== src/Scheduler/Offers.antt =====
-- `offers` of src/scheduler/scheduler_impl.rs: tasks that are requested are matched with what mesos
-- offers. The offers of one call come from one agent.
pub mod Answered
pub mod Fits
pub mod Answerless
pub mod Repeated
pub mod Total
pub mod Plan
pub mod Planned
pub mod Views
pub mod Matched
pub mod Outcome
pub mod Refused
use torc_scheduler.Client.{World, Exec, pure, unwrap, panic, ◌>>=◌, ◌>>◌, call_or_panic, when}
use torc_scheduler.Client.StateManager.{
  request_list_requested_tasks, request_is_node_active, send_update_node, request_task_state,
  send_update_task_state, send_update_task_node_name,
}
use torc_scheduler.Collaborator.{launch}
use torc_scheduler.Machine.F64.{F64, lt_f64, zero_f64}
use torc_scheduler.Mesos.{Offer, Attribute, Resource, TaskInfo}
use torc_scheduler.Prelude.{
  String, Bool, true, false, not, ◌&&◌, ◌||◌, Option, none, some, List, [], ◌∷◌, ◌++◌, is_empty,
  ◌==◌, if◌then◌else◌,
}
use torc_scheduler.Records.{Task, TaskState, same_state}
use torc_scheduler.Scheduler.Container.{all_parameters, parameters_for, task_info_for}

-- The variables that are set before the loop over the offers and read in it.
pub record Seen : Type 0 where
  pub host : String
  pub node_name : String
  pub node_type : String
  pub node_function : String
  pub cpus : F64
  pub mem : F64

abbrev pub nothing_seen : Seen
nothing_seen = record {
  host = "";
  node_name = "";
  node_type = "";
  node_function = "";
  cpus = zero_f64;
  mem = zero_f64;
}

read_attribute : Attribute → Seen → Seen
read_attribute a seen =
    if a.name == "host"
    then record seen { host = a.text }
    else if a.name == "machine-name"
    then record seen { node_name = a.text }
    else if a.name == "machine-type"
    then record seen { node_type = a.text }
    else if a.name == "machine-function"
    then record seen { node_function = a.text }
    else seen

read_resource : Resource → Seen → Seen
read_resource r seen =
    if r.name == "mem"
    then record seen { mem = r.scalar }
    else if r.name == "cpus"
    then record seen { cpus = r.scalar }
    else seen

read_attributes : List Attribute → Seen → Seen
read_attributes [] seen = seen
read_attributes (a ∷ rest) seen = read_attributes rest (read_attribute a seen)

read_resources : List Resource → Seen → Seen
read_resources [] seen = seen
read_resources (r ∷ rest) seen = read_resources rest (read_resource r seen)

-- What an offer does not mention keeps the value of the offers before it.
unfoldable pub read_offer : Offer → Seen → Seen
unfolding read_attributes read_attribute read_resources read_resource
read_offer offer seen = read_resources offer.resources (read_attributes offer.attributes seen)

-- `wanted.len() > 0 && wanted != offered`
abbrev pub conflicts : String → String → Bool
conflicts wanted offered = not (is_empty wanted) && not (wanted == offered)

abbrev pub is_elsewhere : Seen → Task → Bool
is_elsewhere seen task =
    conflicts task.node_name seen.node_name
    || conflicts task.node_type seen.node_type
    || conflicts task.node_function seen.node_function

-- The service that the task depends on runs, if it names one.
unfoldable pub dependency_runs : Task → Exec Bool
dependency_runs task =
    if is_empty task.dependent_service
    then pure true
    else do s ← request_task_state task.dependent_service; pure (same_state s TaskState.running)

abbrev pub is_too_small : Seen → Task → Bool
is_too_small seen task = lt_f64 seen.cpus task.cpu || lt_f64 seen.mem task.memory

-- The body of the inner loop past the tests: the task is accepted and its launch is prepared.
unfoldable pub accept_task : String → Seen → Task → Exec TaskInfo
accept_task slave_id seen task = do
  send_update_task_state task.name TaskState.accepted
  when (not (is_empty task.node_type) || not (is_empty task.node_function))
      (send_update_task_node_name task.name seen.node_name)
  parameters ← unwrap (parameters_for (all_parameters task))
  pure (task_info_for task slave_id parameters)

-- One round of the inner loop; `next` is the loop over the tasks that follow, to which every
-- `continue` leads.
unfoldable pub match_one : String → Seen → Task → Exec (Option TaskInfo) → Exec (Option TaskInfo)
unfolding dependency_runs
match_one slave_id seen task next = if is_elsewhere seen task then next else do
  runs ← dependency_runs task
  if not runs
      then next
      else if is_too_small seen task
      then next
      else (do info ← accept_task slave_id seen task; pure (some info))

-- The inner loop: the first requested task that fits is accepted.
unfoldable pub match_task : String → Seen → List Task → Exec (Option TaskInfo)
match_task slave_id seen [] = pure none
match_task slave_id seen (task ∷ rest) =
    match_one slave_id seen task (match_task slave_id seen rest)

-- The three vectors that the loop over the offers fills.
pub record Answers : Type 0 where
  pub tasks_to_start : List TaskInfo
  pub offers_to_accept : List String
  pub offers_to_decline : List String

abbrev pub no_answers : Answers
no_answers = record { tasks_to_start = []; offers_to_accept = []; offers_to_decline = [] }

abbrev pub answer : String → Option TaskInfo → Answers → Answers
answer offer_id none a = record a { offers_to_decline = a.offers_to_decline ++ offer_id ∷ [] }
answer offer_id (some info) a = record a {
  tasks_to_start = a.tasks_to_start ++ info ∷ [];
  offers_to_accept = a.offers_to_accept ++ offer_id ∷ [];
}

-- A node that is not active is brought up to date from the offer.
unfoldable pub note_node : Seen → String → Exec (Unit {0})
note_node seen slave_id = do
  active ← request_is_node_active seen.node_name
  when (not active) (send_update_node seen.node_name seen.node_type seen.node_function slave_id)

unfoldable pub match_offers : String → List Task → List Offer → Seen → Answers → Exec Answers
match_offers slave_id requested [] seen a = pure a
match_offers slave_id requested (offer ∷ rest) seen a =
    let seen' = read_offer offer seen in
    note_node seen' offer.slave_id >> do
      found ← match_task slave_id seen' requested
      match_offers slave_id requested rest seen' (answer offer.id found a)

abbrev pub has_any : {A : Type 0} → List A → Bool
has_any [] = false
has_any (x ∷ xs) = true

-- Both launches, the second of them of no task.
unfoldable pub send_answers : Answers → Exec (Unit {0})
send_answers a = do
  when (has_any a.tasks_to_start) (call_or_panic (launch a.offers_to_accept a.tasks_to_start))
  when (has_any a.offers_to_decline) (call_or_panic (launch a.offers_to_decline []))

-- `offers[0]` panics if there is no offer.
unfoldable pub offers : List Offer → Exec (Unit {0})
offers [] = panic
offers (offer ∷ rest) = do
  requested ← request_list_requested_tasks
  a ← match_offers offer.slave_id requested (offer ∷ rest) nothing_seen no_answers
  send_answers a
