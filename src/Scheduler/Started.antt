-- ===== src/Scheduler/Started.antt =====
-- A requested task from its offer to its report: `offers` and `update` of
-- src/scheduler/scheduler_impl.rs one after the other.
use mathlib.Core.Option
use torc_scheduler.Prelude.{
  String, ◌≡◌, refl, sym, ap, ◌∙◌, Bool, false, some, List, [], ◌∷◌, ◌++◌, is_empty, inl, inr,
  Bool-cases, Option-cases, Member, ◌==◌, eq_refl, arith,
}
use torc_scheduler.Prelude.Int.{ℤ}
use torc_scheduler.Client.{World, Outcome, ok, continue, ◌>>◌}
use torc_scheduler.Client.Accepting.{Accepts}
use torc_scheduler.Client.Quiet.{IsQuiet}
use torc_scheduler.Collaborator.{Effect}
use torc_scheduler.Collaborator.Consul.{register_running_task}
use torc_scheduler.Mesos.{Offer, TaskInfo, TaskStatus, MesosTaskState}
use torc_scheduler.NodeList
use torc_scheduler.Records.{Task, TaskState, Node}
use torc_scheduler.Scheduler.Offers.{Seen, nothing_seen, read_offer, offers}
use torc_scheduler.Scheduler.Offers.Answered.{launches}
use torc_scheduler.Scheduler.Offers.Matched.{plan_for}
use torc_scheduler.Scheduler.Offers.Outcome.{offers_lem}
use torc_scheduler.Scheduler.Offers.Total.{AllParse, requested_in}
use torc_scheduler.Scheduler.Update.{JsonLibrary, update}
use torc_scheduler.Scheduler.Update.Running.{
  Inspected, Addressed, registers, with_running, update-running,
}
use torc_scheduler.Server.{State}
use torc_scheduler.Server.Validity.{IsValid}
use torc_scheduler.TaskList
use torc_scheduler.TaskList.Queries.{member-get_tasks_with_state}
use torc_scheduler.Scheduler.Offers.Plan.{
  Placement, plan, first_fit, fits, infos, accepted_ids, declined_ids, task_after_plan,
  node_after_plan, placed, accepted_on, heard,
}
use torc_scheduler.Scheduler.Offers.Planned.{runs_in, info_for}

module _ (runs : String → Bool) where
  first_fit-Member :
      (seen : Seen) (ts : List Task) (t : Task) → first_fit runs seen ts ≡ some t → Member t ts
  unfolding first_fit
  first_fit-Member seen [] t e = cc
  first_fit-Member seen (u ∷ ts) t e = elim (Bool-cases (fits runs seen u)) [
    | inl y ↦ ground arith
    | inr y ↦ inr (first_fit-Member seen ts t (rw y at e))
  ]

  -- What the plan starts is requested.
  pub plan-Member :
      (seen : Seen) (requested : List Task) (os : List Offer) (p : Placement) (t : Task)
      → Member p (plan runs seen requested os)
      → p.task ≡ some t
      → Member t requested
  unfolding plan
  plan-Member seen requested [] p t m e = absurd m
  plan-Member seen requested (o ∷ os) p t (inl same) e =
      first_fit-Member (read_offer o seen) requested t
        (ap (λ (q : Placement). q.task) (sym same) ∙ e)
  plan-Member seen requested (o ∷ os) p t (inr m) e =
      plan-Member (read_offer o seen) requested os p t m e

pub infos-Member :
    (slave_id : String) (ps : List Placement) (p : Placement) (t : Task)
    → Member p ps
    → p.task ≡ some t
    → Member (info_for slave_id t) (infos slave_id ps)
infos-Member slave_id [] p t m e = absurd m
infos-Member slave_id (q ∷ ps) p t (inl same) e =
    rw (ap (λ (r : Placement). r.task) (sym same) ∙ e) (inl refl)
infos-Member slave_id (q ∷ ps) p t (inr m) e = elim (Option-cases q.task) [
  | inl none_found ↦ rw none_found (infos-Member slave_id ps p t m e)
  | inr (u, found) ↦ rw found (inr (infos-Member slave_id ps p t m e))
]

-- The plan forgets no task.
pub task_after_plan_stays :
    (ps : List Placement) (n : String) (t : Task)
    → (u : Task) × (task_after_plan ps n (some t) ≡ some u)
task_after_plan_stays [] n t = (t, refl)
task_after_plan_stays (p ∷ ps) n t =
    let (u, e) = here in
    let (v, later) = task_after_plan_stays ps n u in (v, ap (task_after_plan ps n) e ∙ later)
  where
    here : (u : Task) × (placed p n (some t) ≡ some u)
    here = elim (Option-cases p.task) [
      | inl e ↦ (t, rw e refl)
      | inr (a, e) ↦ elim (Bool-cases (a.name == n)) [
        | inl y ↦ (accepted_on p.seen a t, rw (e, y) refl)
        | inr y ↦ (t, rw (e, y) refl)
      ]
    ]

-- The plan forgets no node and leaves its address.
pub node_after_plan_stays :
    (now : ℤ) (ps : List Placement) (n : String) (v : Node)
    → (u : Node) × (node_after_plan now ps n (some v) ≡ some u) × (u.ip ≡ v.ip)
node_after_plan_stays now [] n v = (v, refl, refl)
node_after_plan_stays now (p ∷ ps) n v = elim (Bool-cases (p.seen.node_name == n)) [
  | inl y ↦
      let (u, e, same) = node_after_plan_stays now ps n (heard now p v) in
      (u, rw y e, same ∙ ground arith)
  | inr y ↦ let (u, e, same) = node_after_plan_stays now ps n v in (u, rw y e, same)
]

-- A task that comes up: its container, and the address of that or of the node it is on.
pub record ComesUp (lib : JsonLibrary) (now : ℤ) (s : State) (status : TaskStatus)
    (text id host given ip : String) : Type 0 where
  pub state : status.state ≡ MesosTaskState.task_running
  pub text_is : status.text ≡ some text
  pub inspected : Inspected lib text id host given
  pub addressed : Addressed lib now s host given ip
  pub id_given : is_empty id ≡ false
  pub ip_given : is_empty ip ≡ false
  pub slave_given : is_empty status.slave_id ≡ false

append_both : {xs xs' ys ys' : List Effect} → xs ≡ xs' → ys ≡ ys' → xs ++ ys ≡ xs' ++ ys'
append_both p q = λ i. p i ++ q i

module _ (lib : JsonLibrary) (now : ℤ) where
  Addressed-later :
      (s s' : State) (ps : List Placement) (host given ip : String)
      → ((n : String)
          → NodeList.get_node n s'.node_list
            ≡ node_after_plan now ps n (NodeList.get_node n s.node_list))
      → Addressed lib now s host given ip
      → Addressed lib now s' host given ip
  Addressed-later s s' ps host given ip nodes (inl own) = inl own
  Addressed-later s s' ps host given ip nodes (inr (empty, (v, stored, same))) =
      let (u, e, kept) = node_after_plan_stays now ps host v in
      inr (empty, (u, nodes host ∙ ap (node_after_plan now ps host) stored ∙ e, same ∙ sym kept))

  -- From a valid state, in a quiet environment in which calls of other systems succeed, with docker
  -- parameters that parse for every requested task: a task that the plan puts on an offer is among
  -- those launched, and once the callback for the offers and then that for the report that it runs
  -- are through, neither of which panics, it is stored as running, with the id, the slave and the
  -- address of its container, or the address of its node if the container has none, and it has been
  -- registered. The report names an id, a slave and an address or a known node.
  pub requested_task_gets_running :
      (s : State) (o : Offer) (os : List Offer) (w : World) (p : Placement) (t : Task)
      (status : TaskStatus) (text id host given ip : String)
      → IsQuiet now s w
      → Accepts w
      → IsValid s
      → AllParse (requested_in s)
      → Member p (plan_for s (o ∷ os))
      → p.task ≡ some t
      → status.task_id ≡ t.name
      → ComesUp lib now s status text id host given ip
      → (w' : World) × (s' : State) × (u : Task) × (started : List TaskInfo) × ((offers (o ∷ os)
              >> update lib status)
            w
          ≡ (ok tt, w'))
        × IsQuiet now s' w'
        × (w'.trace
            ≡ (w.trace
                ++ launches started
                    (accepted_ids (plan_for s (o ∷ os)))
                    (declined_ids (plan_for s (o ∷ os))))
              ++ register_running_task s.master_ip u)
        × Member (info_for o.slave_id t) started
        × (TaskList.get_task t.name s'.task_list ≡ some u)
        × (u.state ≡ TaskState.running)
        × (u.id ≡ id)
        × (u.ip ≡ ip)
        × (u.slave_id ≡ status.slave_id)
  requested_task_gets_running s o os w p t status text id host given ip q accepts valid parse m e
        told up =
      let ps = plan_for s (o ∷ os) in
      let listed = plan-Member (runs_in s) nothing_seen (requested_in s) (o ∷ os) p t m e in
      let stored =
        ((member-get_tasks_with_state t TaskState.requested s.task_list valid.tasks).0 listed).0 in
      let (w1, s1, offered, trace1, q1, master, tasks, nodes) =
        offers_lem now s o os w q accepts valid parse in
      let (a, kept) = task_after_plan_stays ps t.name t in
      let (s2, runs, tasks2, _) =
        update-running lib now s1 status text id host given ip up.state up.text_is up.inspected
          (Addressed-later s s1 ps host given ip nodes up.addressed) in
      let (w2, reported, trace2, q2, _) = runs.at w1 q1 in
      let u = with_running lib now id ip status.slave_id a in
      let found : TaskList.get_task t.name s2.task_list ≡ some u =
        tasks2 t.name
        ∙ rw (told, eq_refl t.name)
            (ap (Option.map (with_running lib now id ip status.slave_id))
              (tasks t.name ∙ ap (task_after_plan ps t.name) stored ∙ kept)) in
      let registered : registers lib now s1.master_ip
            (TaskList.get_task status.task_id s2.task_list)
          ≡ register_running_task s.master_ip u =
        (λ i. registers lib now (master i) (TaskList.get_task (told i) s2.task_list))
        ∙ ap (registers lib now s.master_ip) found in
      (
        w2,
        s2,
        u,
        infos o.slave_id ps,
        ap (λ (r : Outcome (Unit {0}) × World). continue r.0 (λ _. update lib status) r.1) offered
            ∙ reported,
        q2,
        trace2 ∙ append_both trace1 registered,
        infos-Member o.slave_id ps p t m e,
        found,
        refl,
        rw up.id_given refl,
        rw up.ip_given refl,
        rw up.slave_given refl,
      )
