-- ===== src/Program/Lost.antt =====
-- What a launch that mesos refuses leaves of the program of src/main.rs.
use torc_scheduler.Client.{World, Outcome}
use torc_scheduler.Client.Quiet.{IsQuiet, Runs}
use torc_scheduler.Client.StateManager.{StateManager, TaskConfig}
use torc_scheduler.Collaborator.{Effect}
use torc_scheduler.Config.Settings.{DnsEntry}
use torc_scheduler.Health.{health_round}
use torc_scheduler.Health.Kept.{kept, health_round_lem}
use torc_scheduler.Mesos.{Offer}
use torc_scheduler.Prelude.{
  String, ◌≡◌, refl, sym, ap, subst, ◌∙◌, false, some, List, ◌∷◌, Member, length,
}
use torc_scheduler.Prelude.Int.{ℤ}
use torc_scheduler.Program.{Program, Phase, Callback, enters, is_over, Setting, Step, Reaches}
use torc_scheduler.Records.{Task, TaskState, same_state}
use torc_scheduler.Scheduler.Offers.{offers}
use torc_scheduler.Scheduler.Offers.Matched.{plan_for}
use torc_scheduler.Scheduler.Offers.Plan.{Placement}
use torc_scheduler.Scheduler.Offers.Refused.{refused_launch_panics}
use torc_scheduler.Scheduler.Offers.Total.{AllParse, requested_in}
use torc_scheduler.Server.{State}
use torc_scheduler.Server.Validity.{IsValid}
use torc_scheduler.TaskList

-- An accepted task is not down.
accepted_is_up :
    (sm : StateManager) (now : ℤ) (tasks : List TaskConfig) (n : String) (u : Task)
    → u.state ≡ TaskState.accepted
    → kept sm now tasks n (some u) ≡ some u
unfolding same_state
accepted_is_up sm now tasks n u accepted = rw accepted refl

module _ (x : Setting) where
  Step-stopped :
      (p q : Program) → p.scheduler ≡ Phase.stopped → Step x p q → q.scheduler ≡ Phase.stopped
  Step-stopped p q e (Step.scheduler_starts _ _ f) = cc (sym e ∙ f)
  Step-stopped p q e (Step.calls_back _ c _ f) = cc (sym e ∙ f)
  Step-stopped p q e _ = e

  Reaches-stopped :
      (p q : Program) → p.scheduler ≡ Phase.stopped → Reaches x p q → q.scheduler ≡ Phase.stopped
  Reaches-stopped first last e (Reaches.here _) = e
  Reaches-stopped first last e (Reaches.after {p} {q} {r} before s) =
      Step-stopped q last (Reaches-stopped first q e before) s

  -- In a quiet environment, from a valid state and with docker parameters that parse for every
  -- requested task: if the plan puts a task on an offer and mesos refuses the launch, the callback
  -- for the offers is a step of the program after which the scheduler thread is stopped wherever
  -- the program gets, though the program is not over; the task is stored as accepted, and a round
  -- of the health checker at the same time, with any services and entries, leaves it so.
  pub refused_launch_loses_task :
      (now : ℤ) (s : State) (o : Offer) (os : List Offer) (p : Program) (place : Placement)
      (t : Task)
      → is_over p ≡ false
      → p.scheduler ≡ Phase.looping tt
      → IsQuiet now s p.world
      → IsValid s
      → AllParse (requested_in s)
      → Member place (plan_for s (o ∷ os))
      → place.task ≡ some t
      → p.world.env.accepts (length p.world.trace) ≡ false
      → (q : Program) × (s' : State) × (u : Task) × Step x p q
        × ((r : Program) → Reaches x q r → r.scheduler ≡ Phase.stopped)
        × (is_over q ≡ false)
        × IsQuiet now s' q.world
        × (TaskList.get_task t.name s'.task_list ≡ some u)
        × (u.state ≡ TaskState.accepted)
        × ((tasks : List TaskConfig) (entries : List DnsEntry)
            → (es : List Effect) × (s2 : State) × Runs now
                (health_round x.sm tasks entries)
                s'
                tt
                es
                s2
              × (TaskList.get_task t.name s2.task_list ≡ some u))
  refused_launch_loses_task now s o os p place t lives looping q valid parse m e refused =
      let (w', s', u, panics, q', stored, accepted) =
        refused_launch_panics now s o os p.world place t q valid parse m e refused in
      let result = offers (o ∷ os) p.world in
      let p1 : Program = record p { world = result.1; scheduler = enters result.0 } in
      let stopped : p1.scheduler ≡ Phase.stopped =
        ap (λ (r : Outcome (Unit {0}) × World). enters r.0) panics in
      (
        p1,
        s',
        u,
        Step.calls_back p (Callback.offers (o ∷ os)) lives looping,
        λ r. Reaches-stopped p1 r stopped,
        lives,
        subst (λ (r : Outcome (Unit {0}) × World). IsQuiet now s' r.1) (sym panics) q',
        stored,
        accepted,
        λ tasks entries.
            let (s2, runs, after, _) = health_round_lem x.sm now tasks entries s' in
            (
              _,
              s2,
              runs,
              after t.name
                  ∙ ap (kept x.sm now tasks t.name) stored
                  ∙ accepted_is_up x.sm now tasks t.name u accepted,
            ),
      )
