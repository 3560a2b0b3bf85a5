-- ===== src/Scheduler/Offers/Outcome.antt =====
-- What `offers` of src/scheduler/scheduler_impl.rs makes of the tasks and nodes and asks of mesos, while
-- no other thread interferes.
use torc_scheduler.Client.{World, Environment, ok, pure}
use torc_scheduler.Client.Accepting.{
  Accepts, Calls, Calls-pure, Calls-then, Calls-if, Calls-call_or_panic, with_calls,
}
use torc_scheduler.Collaborator.{launch}
use torc_scheduler.Client.Quiet.{IsQuiet}
use torc_scheduler.Mesos.{Offer}
use torc_scheduler.NodeList
use torc_scheduler.Prelude.{ℕ, String, ◌≡◌, sym, ap, subst, ◌∙◌, true, List, [], ◌∷◌, ◌++◌}
use torc_scheduler.Prelude.Int.{ℤ}
use torc_scheduler.Scheduler.Offers.{Answers, no_answers, has_any, send_answers, offers}
use torc_scheduler.Scheduler.Offers.Answered.{launches, ap₃_launches}
use torc_scheduler.Scheduler.Offers.Plan.{
  infos, accepted_ids, declined_ids, task_after_plan, node_after_plan,
}
use torc_scheduler.Scheduler.Offers.Total.{AllParse, requested_in}
use torc_scheduler.Server.{State}
use torc_scheduler.Server.Validity.{IsValid}
use torc_scheduler.TaskList
use torc_scheduler.Scheduler.Offers.Matched.{
  after_plan, answers_of, plan_for, answers_of_lem, master_ip-after_plan, get_task-after_plan,
  get_node-after_plan, offers_matched,
}

send_answers-Calls :
    (a : Answers)
    → Calls (send_answers a) (launches a.tasks_to_start a.offers_to_accept a.offers_to_decline)
unfolding send_answers
send_answers-Calls a =
    Calls-then _ _ _ _
      (Calls-if (has_any a.tasks_to_start) _ (pure tt) _ []
        (Calls-call_or_panic (launch a.offers_to_accept a.tasks_to_start)) Calls-pure)
      (Calls-if (has_any a.offers_to_decline) _ (pure tt) _ []
        (Calls-call_or_panic (launch a.offers_to_decline [])) Calls-pure)

-- From a valid state, in a quiet environment in which calls of other systems succeed: if the docker
-- parameters of every requested task parse, the callback for one or more offers ends without a
-- panic and does what its plan says, which is fixed beforehand by the services that run, the
-- requested tasks and the offers: each offer gets the first requested task that fits it. The calls
-- are one launch of the tasks planned on the offers that got one, and one of no task on the others,
-- each left out if empty; every task and every node is left as the plan leaves it, and the address
-- of the master is kept.
pub offers_lem :
    (now : ℤ) (s : State) (o : Offer) (os : List Offer) (w : World)
    → IsQuiet now s w
    → Accepts w
    → IsValid s
    → AllParse (requested_in s)
    → (w' : World) × (s' : State) × (offers (o ∷ os) w ≡ (ok tt, w'))
      × (w'.trace
          ≡ w.trace
            ++ launches
                (infos o.slave_id (plan_for s (o ∷ os)))
                (accepted_ids (plan_for s (o ∷ os)))
                (declined_ids (plan_for s (o ∷ os))))
      × IsQuiet now s' w'
      × (s'.master_ip ≡ s.master_ip)
      × ((n : String)
          → TaskList.get_task n s'.task_list
            ≡ task_after_plan (plan_for s (o ∷ os)) n (TaskList.get_task n s.task_list))
      × ((n : String)
          → NodeList.get_node n s'.node_list
            ≡ node_after_plan now (plan_for s (o ∷ os)) n (NodeList.get_node n s.node_list))
offers_lem now s o os w q accepts valid parse =
    let ps = plan_for s (o ∷ os) in
    let a = answers_of o.slave_id ps no_answers in
    let (starts, accepted, declined) = answers_of_lem o.slave_id ps no_answers in
    let s' = after_plan now ps s in
    let (w2, matched, same_trace, q2, env) = offers_matched now s o os w q valid parse in
    let es = launches a.tasks_to_start a.offers_to_accept a.offers_to_decline in
    let sent =
      (send_answers-Calls a).at w2
        (subst (λ (v : Environment). (n : ℕ) → v.accepts n ≡ true) (sym env) accepts) in
    (
      with_calls w2 es,
      s',
      matched ∙ sent,
      ap₃_launches w2.trace starts accepted declined
          ∙ ap (λ l. l ++ launches (infos o.slave_id ps) (accepted_ids ps) (declined_ids ps))
              same_trace,
      record {
        events = q2.events;
        time = q2.time;
        serving = q2.serving;
        unpoisoned = q2.unpoisoned;
      },
      master_ip-after_plan now ps s,
      λ n. get_task-after_plan now n ps s,
      λ n. get_node-after_plan now n ps s,
    )
