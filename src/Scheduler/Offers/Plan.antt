-- ===== src/Scheduler/Offers/Plan.antt =====
-- Which task each offer gets in `offers` of src/scheduler/scheduler_impl.rs, decided beforehand: by the
-- services that run when the callback begins, the requested tasks and the offers alone.
use mathlib.Core.Option
use torc_scheduler.Machine.F64.{lt_f64}
use torc_scheduler.Mesos.{Offer, Parameter, TaskInfo}
use torc_scheduler.NodeList.{as_active}
use torc_scheduler.Prelude.{
  String, Bool, not, ◌&&◌, ◌||◌, Option, none, some, List, [], ◌∷◌, is_empty, ◌==◌, if◌then◌else◌,
}
use torc_scheduler.Prelude.Int.{ℤ}
use torc_scheduler.Records.{Task, TaskState, Node}
use torc_scheduler.Scheduler.Container.{all_parameters, parameters_for, task_info_for}
use torc_scheduler.Scheduler.Offers.{Seen, read_offer}

-- A constraint that is left empty allows everything.
abbrev pub allows : String → String → Bool
allows wanted offered = is_empty wanted || wanted == offered

-- The task may run where the offer comes from, the service that it depends on runs, and the offer is
-- large enough.
abbrev pub fits : (String → Bool) → Seen → Task → Bool
fits runs seen t =
    allows t.node_name seen.node_name
    && allows t.node_type seen.node_type
    && allows t.node_function seen.node_function
    && (is_empty t.dependent_service || runs t.dependent_service)
    && not (lt_f64 seen.cpus t.cpu)
    && not (lt_f64 seen.mem t.memory)

unfoldable pub first_fit : (String → Bool) → Seen → List Task → Option Task
first_fit runs seen [] = none
first_fit runs seen (t ∷ ts) = if fits runs seen t then some t else first_fit runs seen ts

-- An offer, what is seen of it, and the task that it gets.
pub record Placement : Type 0 where
  pub offer : Offer
  pub seen : Seen
  pub task : Option Task

unfoldable pub plan : (String → Bool) → Seen → List Task → List Offer → List Placement
unfolding first_fit
plan runs seen requested [] = []
plan runs seen requested (o ∷ os) =
    let seen' = read_offer o seen in
    record { offer = o; seen = seen'; task = first_fit runs seen' requested }
    ∷ plan runs seen' requested os

abbrev pub own_parameters : Task → List Parameter
own_parameters t = elim (parameters_for (all_parameters t)) [ some ps ↦ ps | none ↦ [] ]

-- The tasks that are started, with the agent of the first offer.
abbrev pub infos : String → List Placement → List TaskInfo
infos slave_id [] = []
infos slave_id (p ∷ ps) = elim p.task [
  | some t ↦ task_info_for t slave_id (own_parameters t) ∷ infos slave_id ps
  | none ↦ infos slave_id ps
]

abbrev pub accepted_ids : List Placement → List String
accepted_ids [] = []
accepted_ids (p ∷ ps) = elim p.task [
  | some t ↦ p.offer.id ∷ accepted_ids ps
  | none ↦ accepted_ids ps
]

abbrev pub declined_ids : List Placement → List String
declined_ids [] = []
declined_ids (p ∷ ps) = elim p.task [
  | some t ↦ declined_ids ps
  | none ↦ p.offer.id ∷ declined_ids ps
]

-- A task that is accepted on what is seen of an offer: one that asks for a type or a function of node
-- is told its node.
abbrev pub accepted_on : Seen → Task → Task → Task
accepted_on seen t u = record u {
  state = TaskState.accepted;
  node_name =
      if not (is_empty t.node_type) || not (is_empty t.node_function)
      then seen.node_name
      else u.node_name;
}

abbrev pub placed : Placement → String → Option Task → Option Task
placed p n o = elim p.task [
  | some t ↦ if t.name == n then Option.map (accepted_on p.seen t) o else o
  | none ↦ o
]

-- What the plan makes of the task under a name.
abbrev pub task_after_plan : List Placement → String → Option Task → Option Task
task_after_plan [] n o = o
task_after_plan (p ∷ ps) n o = task_after_plan ps n (placed p n o)

-- An active node is seen now, another one is brought up to date from the offer.
abbrev pub heard : ℤ → Placement → Node → Node
heard now p v =
    if v.active
    then record v { last_seen = now }
    else as_active p.seen.node_type p.seen.node_function p.offer.slave_id v

-- What the plan makes of the node under a name.
abbrev pub node_after_plan : ℤ → List Placement → String → Option Node → Option Node
node_after_plan now [] n o = o
node_after_plan now (p ∷ ps) n o =
    node_after_plan now ps n (if p.seen.node_name == n then Option.map (heard now p) o else o)
