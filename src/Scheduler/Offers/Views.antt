-- ===== src/Scheduler/Offers/Views.antt =====
-- What a placement of the plan makes of the tasks and nodes, for `offers` of
-- src/scheduler/scheduler_impl.rs.
use mathlib.Core.Option
use mathlib.Core.Option.{some-injective}
use torc_scheduler.NodeList
use torc_scheduler.NodeList.View as NodeView
use torc_scheduler.Prelude.{
  String, ◌≡◌, refl, sym, ap, subst, ◌∙◌, Bool, true, false, not, Option, none, some, List, [], ◌∷◌,
  arith, inl, inr, Bool-cases, ◌==◌, eq_iff, if◌then◌else◌,
}
use torc_scheduler.Prelude.Int.{ℤ}
use torc_scheduler.Records.{Task, TaskState, Node, same_state}
use torc_scheduler.Scheduler.Offers.{Seen}
use torc_scheduler.Scheduler.Offers.Plan.{Placement, first_fit, fits, accepted_on, placed, heard}
use torc_scheduler.Scheduler.Offers.Planned.{runs_in, noted, accepted, asks_for_node, after_found}
use torc_scheduler.Server.{State}
use torc_scheduler.TaskList
use torc_scheduler.TaskList.View as TaskView

-- None of the tasks runs.
abbrev pub AllDown : (String → Bool) → List Task → Type 0
AllDown runs [] = Unit
AllDown runs (t ∷ ts) = (runs t.name ≡ false) × AllDown runs ts

abbrev pub FoundDown : (String → Bool) → Option Task → Type 0
FoundDown runs none = Unit
FoundDown runs (some t) = runs t.name ≡ false

pub first_fit-FoundDown :
    (runs : String → Bool) (seen : Seen) (ts : List Task)
    → AllDown runs ts
    → FoundDown runs (first_fit runs seen ts)
unfolding first_fit
first_fit-FoundDown runs seen [] h = tt
first_fit-FoundDown runs seen (u ∷ ts) (down, h) =
    either (fits runs seen u) (first_fit runs seen ts) (first_fit-FoundDown runs seen ts h)
  where
    either :
        (b : Bool) (o : Option Task) → FoundDown runs o → FoundDown runs (if b then some u else o)
    either true o later = down
    either false o later = later

-- The state that is reported of a task.
abbrev state_in : Option Task → TaskState
state_in o = elim o [ some t ↦ t.state | none ↦ TaskState.not_running ]

abbrev running : Option Task → Bool
running o = same_state (state_in o) TaskState.running

pub runs_in_lem : (d : String) (s : State) → runs_in s d ≡ running (TaskList.get_task d s.task_list)
runs_in_lem d s =
    ap (λ k. same_state k TaskState.running) (TaskView.get_task_state-eq s.task_list d)

module _ (seen : Seen) (t : Task) (s : State) where
  running-accepted_on : (o : Option Task) → running (Option.map (accepted_on seen t) o) ≡ false
  unfolding same_state
  running-accepted_on none = refl
  running-accepted_on (some u) = refl

  pub get_task-accepted :
      (n : String)
      → TaskList.get_task n (accepted seen t s).task_list ≡ (
          if t.name == n
          then Option.map (accepted_on seen t) (TaskList.get_task n s.task_list)
          else TaskList.get_task n s.task_list)
  get_task-accepted n = ground (
    arith,
    TaskView.get_task-set_task_state s.task_list n t.name TaskState.accepted,
    TaskView.get_task-set_task_node_name
        (TaskList.set_task_state t.name TaskState.accepted s.task_list) n t.name seen.node_name,
  )

  -- A task that did not run does not run once it is accepted.
  runs_in-accepted :
      runs_in s t.name ≡ false → (d : String) → runs_in (accepted seen t s) d ≡ runs_in s d
  runs_in-accepted down d =
      runs_in_lem d (accepted seen t s)
      ∙ ap running (get_task-accepted d)
      ∙ (elim (Bool-cases (t.name == d)) [
        | inl e ↦ rw e (
            running-accepted_on (TaskList.get_task d s.task_list)
            ∙ sym (subst (λ n. runs_in s n ≡ false) ((eq_iff t.name d).0 e) down))
        | inr e ↦ rw e (sym (runs_in_lem d s))
      ])

-- The same for what the plan finds.
module _ (seen : Seen) (s : State) where
  pub runs_in-after_found :
      (o : Option Task)
      → FoundDown (runs_in s) o
      → (d : String) → runs_in (after_found seen o s) d ≡ runs_in s d
  runs_in-after_found none h d = refl
  runs_in-after_found (some t) h d = runs_in-accepted seen t s h d

  pub get_task-after_found :
      (o : Option Task) (p : Placement)
      → p.seen ≡ seen
      → p.task ≡ o
      → (n : String)
      → TaskList.get_task n (after_found seen o s).task_list
        ≡ placed p n (TaskList.get_task n s.task_list)
  get_task-after_found none p e f n = rw f refl
  get_task-after_found (some t) p e f n = rw (e, f) (get_task-accepted seen t s n)

  pub node_list-after_found : (o : Option Task) → (after_found seen o s).node_list ≡ s.node_list
  node_list-after_found none = refl
  node_list-after_found (some t) = elim (Bool-cases (asks_for_node t)) [
    | inl e ↦ rw e refl
    | inr e ↦ rw e refl
  ]

is_node_active_lem :
    (now : ℤ) (n : String) (l : NodeList.NodeList)
    → (NodeList.is_node_active now n l).0
      ≡ elim (NodeList.get_node n l) [ some v ↦ v.active | none ↦ false ]
unfolding NodeList.is_node_active NodeList.get_node
is_node_active_lem now n l = refl

module _ (now : ℤ) (p : Placement) (s : State) where
  abbrev here : State
  here = noted now p.seen p.offer.slave_id s

  pub task_list-noted : here.task_list ≡ s.task_list
  task_list-noted = ground arith

  heard_lem :
      (o : Option Node)
      → (if not (elim o [ some v ↦ v.active | none ↦ false ])
          then Option.map
              (NodeList.as_active p.seen.node_type p.seen.node_function p.offer.slave_id)
              (Option.map (NodeList.seen_if_active now) o)
          else Option.map (NodeList.seen_if_active now) o)
        ≡ Option.map (heard now p) o
  heard_lem none = refl
  heard_lem (some v) = ground arith

  pub get_node-noted :
      (n : String)
      → NodeList.get_node n here.node_list ≡ (
          if p.seen.node_name == n
          then Option.map (heard now p) (NodeList.get_node n s.node_list)
          else NodeList.get_node n s.node_list)
  get_node-noted n =
      let m = p.seen.node_name in
      let l = (NodeList.is_node_active now m s.node_list).1 in
      ground (
        arith,
        eq_iff m n,
        is_node_active_lem now m s.node_list,
        NodeView.get_node-is_node_active s.node_list n now m,
        NodeView.get_node-update_node l n m p.seen.node_type p.seen.node_function p.offer.slave_id,
        heard_lem (NodeList.get_node n s.node_list),
      )

-- The address of the master stays.
pub master_ip-placed :
    (now : ℤ) (p : Placement) (s : State)
    → (after_found p.seen p.task (noted now p.seen p.offer.slave_id s)).master_ip ≡ s.master_ip
master_ip-placed now p s = after p.task ∙ ground arith
  where
    after :
        (o : Option Task)
        → (after_found p.seen o (noted now p.seen p.offer.slave_id s)).master_ip
          ≡ (noted now p.seen p.offer.slave_id s).master_ip
    after none = refl
    after (some t) = ground arith
