-- ===== src/Scheduler/Offers/Refused.antt =====
-- What `offers` of src/scheduler/scheduler_impl.rs leaves behind when mesos refuses the launch.
use torc_scheduler.Client.{
  World, Outcome, panicked, Exec, pure, panic, continue, when, call_or_panic, try_call,
}
use torc_scheduler.Client.Accepting.{with_calls}
use torc_scheduler.Client.Quiet.{IsQuiet}
use torc_scheduler.Collaborator.{launch}
use torc_scheduler.Mesos.{Offer}
use torc_scheduler.Prelude.{
  String, ◌≡◌, refl, sym, ap, ◌∙◌, true, false, some, List, [], ◌∷◌, length, inl, inr, Bool-cases,
  Option-cases, Member, ◌==◌, eq_refl, if◌then◌else◌,
}
use torc_scheduler.Prelude.Int.{ℤ}
use torc_scheduler.Records.{Task, TaskState}
use torc_scheduler.Scheduler.Offers.{
  Answers, nothing_seen, no_answers, has_any, send_answers, offers,
}
use torc_scheduler.Scheduler.Offers.Matched.{
  after_plan, answers_of, plan_for, answers_of_lem, get_task-after_plan, offers_matched,
}
use torc_scheduler.Scheduler.Offers.Plan.{Placement, infos, placed, accepted_on, task_after_plan}
use torc_scheduler.Scheduler.Offers.Planned.{runs_in, info_for}
use torc_scheduler.Scheduler.Offers.Total.{AllParse, requested_in}
use torc_scheduler.Scheduler.Started.{plan-Member, infos-Member}
use torc_scheduler.Server.{State}
use torc_scheduler.Server.Validity.{IsValid}
use torc_scheduler.TaskList
use torc_scheduler.TaskList.Queries.{member-get_tasks_with_state}

-- A placement keeps a task, and an accepted one accepted.
placed_keeps :
    (p : Placement) (n : String) (a : Task)
    → (b : Task) × (placed p n (some a) ≡ some b)
      × (a.state ≡ TaskState.accepted → b.state ≡ TaskState.accepted)
placed_keeps p n a = elim (Option-cases p.task) [
  | inl e ↦ (a, rw e refl, λ h. h)
  | inr (t, e) ↦ elim (Bool-cases (t.name == n)) [
    | inl y ↦ (accepted_on p.seen t a, rw (e, y) refl, λ h. refl)
    | inr y ↦ (a, rw (e, y) refl, λ h. h)
  ]
]

stays_accepted :
    (ps : List Placement) (n : String) (a : Task)
    → a.state ≡ TaskState.accepted
    → (u : Task) × (task_after_plan ps n (some a) ≡ some u) × (u.state ≡ TaskState.accepted)
stays_accepted [] n a h = (a, refl, h)
stays_accepted (p ∷ ps) n a h =
    let (b, e, kept) = placed_keeps p n a in
    let (u, later, accepted) = stays_accepted ps n b (kept h) in
    (u, ap (task_after_plan ps n) e ∙ later, accepted)

-- A task that is placed is accepted.
placed_is_accepted :
    (ps : List Placement) (p : Placement) (t a : Task)
    → Member p ps
    → p.task ≡ some t
    → (u : Task) × (task_after_plan ps t.name (some a) ≡ some u) × (u.state ≡ TaskState.accepted)
placed_is_accepted [] p t a m e = absurd m
placed_is_accepted (q ∷ ps) p t a (inl same) e =
    let b = accepted_on q.seen t a in
    let (u, later, accepted) = stays_accepted ps t.name b refl in
    let here : placed q t.name (some a) ≡ some b =
      rw (ap (λ (r : Placement). r.task) (sym same) ∙ e, eq_refl t.name) refl in
    (u, ap (task_after_plan ps t.name) here ∙ later, accepted)
placed_is_accepted (q ∷ ps) p t a (inr m) e =
    let (b, here, _) = placed_keeps q t.name a in
    let (u, later, accepted) = placed_is_accepted ps p t b m e in
    (u, ap (task_after_plan ps t.name) here ∙ later, accepted)

has_any-Member : {A : Type 0} (x : A) (xs : List A) → Member x xs → has_any xs ≡ true
has_any-Member x [] m = absurd m
has_any-Member x (y ∷ ys) m = refl

-- The launch is refused, and with it everything after it is left out.
send_answers_refused :
    (a : Answers) (w : World)
    → has_any a.tasks_to_start ≡ true
    → w.env.accepts (length w.trace) ≡ false
    → send_answers a w ≡ (panicked, with_calls w (launch a.offers_to_accept a.tasks_to_start ∷ []))
unfolding send_answers call_or_panic try_call
send_answers_refused a w any refused =
    let first : Exec (Unit {0}) = call_or_panic (launch a.offers_to_accept a.tasks_to_start) in
    let rest : Exec (Unit {0}) =
      when (has_any a.offers_to_decline) (call_or_panic (launch a.offers_to_decline [])) in
    let w1 = with_calls w (launch a.offers_to_accept a.tasks_to_start ∷ []) in
    let go_on : Outcome (Unit {0}) × World → Outcome (Unit {0}) × World =
      λ r. continue r.0 (λ _. rest) r.1 in
    ap (λ b. go_on (when b first w)) any
    ∙ ap (λ b. go_on ((if b then pure tt else panic) w1)) refused

pub refused_launch_panics :
    (now : ℤ) (s : State) (o : Offer) (os : List Offer) (w : World) (p : Placement) (t : Task)
    → IsQuiet now s w
    → IsValid s
    → AllParse (requested_in s)
    → Member p (plan_for s (o ∷ os))
    → p.task ≡ some t
    → w.env.accepts (length w.trace) ≡ false
    → (w' : World) × (s' : State) × (u : Task) × (offers (o ∷ os) w ≡ (panicked, w'))
      × IsQuiet now s' w'
      × (TaskList.get_task t.name s'.task_list ≡ some u)
      × (u.state ≡ TaskState.accepted)
refused_launch_panics now s o os w p t q valid parse m e refused =
    let ps = plan_for s (o ∷ os) in
    let a = answers_of o.slave_id ps no_answers in
    let listed = plan-Member (runs_in s) nothing_seen (requested_in s) (o ∷ os) p t m e in
    let stored =
      ((member-get_tasks_with_state t TaskState.requested s.task_list valid.tasks).0 listed).0 in
    let (u, kept, accepted) = placed_is_accepted ps p t t m e in
    let (w1, matched, same_trace, q1, env) = offers_matched now s o os w q valid parse in
    let any : has_any a.tasks_to_start ≡ true =
      ap has_any (answers_of_lem o.slave_id ps no_answers).0
      ∙ has_any-Member (info_for o.slave_id t) (infos o.slave_id ps)
          (infos-Member o.slave_id ps p t m e) in
    let refused1 : w1.env.accepts (length w1.trace) ≡ false =
      (λ i. (env i).accepts (length (same_trace i))) ∙ refused in
    (
      with_calls w1 (launch a.offers_to_accept a.tasks_to_start ∷ []),
      after_plan now ps s,
      u,
      matched ∙ send_answers_refused a w1 any refused1,
      record {
        events = q1.events;
        time = q1.time;
        serving = q1.serving;
        unpoisoned = q1.unpoisoned;
      },
      get_task-after_plan now t.name ps s ∙ ap (task_after_plan ps t.name) stored ∙ kept,
      accepted,
    )
