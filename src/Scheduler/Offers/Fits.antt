-- ===== src/Scheduler/Offers/Fits.antt =====
-- Which tasks `offers` of src/scheduler/scheduler_impl.rs starts, in any environment.
use torc_scheduler.Client.{World, ok, Exec, pure, unwrap, when, ◌>>=◌, call, yield}
use torc_scheduler.Client.Ends.{>>=-eq-ok, pure-eq-ok, unwrap-eq-ok}
use torc_scheduler.Client.StateManager.{send_update_task_state, send_update_task_node_name}
use torc_scheduler.Mesos.{Parameter, TaskInfo}
use torc_scheduler.Prelude.{
  String, ◌≡◌, refl, sym, ap, ◌∙◌, ◌&&◌, inl, inr, Bool, true, false, not, Option, none, some, List,
  [], ◌∷◌, ◌++◌, Member, arith, is_empty, Bool-cases, if◌then◌else◌, ◌||◌,
}
use torc_scheduler.Records.{Task, TaskState, same_state}
use torc_scheduler.Scheduler.Container.{all_parameters, parameters_for, task_info_for}
use torc_scheduler.Scheduler.Offers.{
  Seen, match_task, match_one, accept_task, dependency_runs, is_elsewhere, is_too_small,
}
use torc_scheduler.Client.Asked.{call-Asked}
use torc_scheduler.Client.StateManager.{request_task_state, to_task_state}
use torc_scheduler.Scheduler.Offers.Plan.{fits}
use torc_scheduler.Scheduler.Offers.Planned.{runs_in, holds, fits_lem}
use torc_scheduler.Server.{State, StateRequestMsg, Served}
use torc_scheduler.Server.Handlers
use torc_scheduler.Server.Serve.{dispatch}

-- The inner loop found nothing among the requested tasks up to this one, which fits what is offered,
-- as the plan has it, with the services that are up at the moment at which the loop has come to it;
-- and the launch that is prepared for it.
pub record Chosen (slave_id : String) (seen : Seen) (requested : List Task) (info : TaskInfo)
    (t : Task) (w : World) : Type 0 where
  pub listed : Member t requested
  pub before : List Task
  pub after : List Task
  pub split : requested ≡ before ++ t ∷ after
  pub here : World
  pub passed : match_task slave_id seen before w ≡ (ok none, here)
  pub state : State
  pub serving : (yield here).server ≡ some state
  pub fits : fits (runs_in state) seen t ≡ true
  pub parameters : List Parameter
  pub parsed : parameters_for (all_parameters t) ≡ some parameters
  pub prepared : info ≡ task_info_for t slave_id parameters

pub accept_task_prepares :
    (slave_id : String) (seen : Seen) (t : Task) (w w' : World) (info : TaskInfo)
    → accept_task slave_id seen t w ≡ (ok info, w')
    → (ps : List Parameter) × (parameters_for (all_parameters t) ≡ some ps)
      × (info ≡ task_info_for t slave_id ps)
unfolding accept_task
accept_task_prepares slave_id seen t w w' info e =
    let (_, w1, _, named) =
      >>=-eq-ok (send_update_task_state t.name TaskState.accepted) _ w w' info e in
    let (_, w2, _, parsing) =
      >>=-eq-ok
        (when (not (is_empty t.node_type) || not (is_empty t.node_function))
          (send_update_task_node_name t.name seen.node_name))
        _ w1 w' info named in
    let (ps, w3, parsed, made) =
      >>=-eq-ok (unwrap (parameters_for (all_parameters t))) _ w2 w' info parsing in
    (
      ps,
      (unwrap-eq-ok (parameters_for (all_parameters t)) ps w2 w3 parsed).0,
      sym (pure-eq-ok (task_info_for t slave_id ps) info w3 w' made).0,
    )

-- The service that the task depends on, if any, runs when the loop comes to it.
abbrev Held : Task → World → Type 0
Held t w = (s : State) × ((yield w).server ≡ some s) × (holds s t ≡ true)

module _ (t : Task) (w w' : World) where
  asked_runs : is_empty t.dependent_service ≡ false → dependency_runs t w ≡ (ok true, w') → Held t w
  unfolding dependency_runs request_task_state dispatch Handlers.handle_get_task_state
  asked_runs named e =
      let n = t.dependent_service in
      let msg = StateRequestMsg.get_task_state n in
      let (k, w1, requested, compared) =
        >>=-eq-ok (request_task_state n) (λ k. pure (same_state k TaskState.running)) w w' true
          (rw named at e) in
      let (answer, w2, called, read) =
        >>=-eq-ok (call msg) (λ a. pure (to_task_state a)) w w1 k requested in
      let asked = call-Asked msg answer w w2 called in
      let s = asked.state in
      let reply : Served = Handlers.handle_get_task_state s n in
      let same : reply ≡ asked.served = cc asked.ran in
      let state : to_task_state reply.answer ≡ k =
        ap (λ (r : Served). to_task_state r.answer) same
        ∙ ap to_task_state asked.answered
        ∙ (pure-eq-ok (to_task_state answer) k w2 w1 read).0 in
      let up = pure-eq-ok (same_state k TaskState.running) true w1 w' compared in
      (s, asked.serving, rw named (ap (λ j. same_state j TaskState.running) state ∙ up.0))

  -- To accept a task, the serving thread must be there.
  accepted_by :
      (slave_id : String) (seen : Seen) (info : TaskInfo)
      → accept_task slave_id seen t w ≡ (ok info, w')
      → (s : State) × ((yield w).server ≡ some s)
  unfolding accept_task send_update_task_state
  accepted_by slave_id seen info e =
      let msg = StateRequestMsg.update_task_state t.name TaskState.accepted in
      let (_, w1, sent, _) =
        >>=-eq-ok (send_update_task_state t.name TaskState.accepted) _ w w' info e in
      let (answer, w2, called, _) = >>=-eq-ok (call msg) (λ a. pure tt) w w1 tt sent in
      let asked = call-Asked msg answer w w2 called in (asked.state, asked.serving)

not_asked :
    (t : Task) (w w1 : World) (runs : Bool)
    → is_empty t.dependent_service ≡ true
    → dependency_runs t w ≡ (ok runs, w1)
    → w ≡ w1
unfolding dependency_runs
not_asked t w w1 runs none_named e = (pure-eq-ok true runs w w1 (rw none_named at e)).1

dependency_held :
    (t : Task) (slave_id : String) (seen : Seen) (w w1 w' : World) (info : TaskInfo)
    → dependency_runs t w ≡ (ok true, w1)
    → accept_task slave_id seen t w1 ≡ (ok info, w')
    → Held t w
dependency_held t slave_id seen w w1 w' info asked accepted =
    elim (Bool-cases (is_empty t.dependent_service)) [
      | inl e ↦
          let (s, there) =
            accepted_by t w w' slave_id seen info
              (ap (accept_task slave_id seen t) (not_asked t w w1 true e asked) ∙ accepted) in
          (s, there, rw e refl)
      | inr e ↦ asked_runs t w w1 e asked
    ]

module _ (slave_id : String) (seen : Seen) where
  abbrev Finds : List Task → TaskInfo → World → Type 0
  Finds requested info w = (t : Task) × Chosen slave_id seen requested info t w

  -- A task that is passed over leads to the rest of the loop, whatever that is.
  abbrev Passes : Task → World → World → Type 0
  Passes t w w1 = (next : Exec (Option TaskInfo)) → match_one slave_id seen t next w ≡ next w1

  later :
      (t : Task) (ts : List Task) (info : TaskInfo) (w w1 : World)
      → Passes t w w1
      → Finds ts info w1
      → Finds (t ∷ ts) info w
  unfolding match_task
  later t ts info w w1 passes (u, h) = (
    u,
    record {
      listed = inr h.listed;
      before = t ∷ h.before;
      after = h.after;
      split = ap (λ l. t ∷ l) h.split;
      here = h.here;
      passed = passes (match_task slave_id seen h.before) ∙ h.passed;
      state = h.state;
      serving = h.serving;
      fits = h.fits;
      parameters = h.parameters;
      parsed = h.parsed;
      prepared = h.prepared;
    },
  )

  elsewhere-Passes : (t : Task) (w : World) → is_elsewhere seen t ≡ true → Passes t w w
  unfolding match_one
  elsewhere-Passes t w away next = rw away refl

  unfit-Passes :
      (t : Task) (w w1 : World) (runs : Bool)
      → is_elsewhere seen t ≡ false
      → dependency_runs t w ≡ (ok runs, w1)
      → (runs && not (is_too_small seen t)) ≡ false
      → Passes t w w1
  unfolding match_one
  unfit-Passes t w w1 false here asked unfit next = rw (here, asked) refl
  unfit-Passes t w w1 true here asked unfit next =
      let small : is_too_small seen t ≡ true = ground arith in rw (here, asked, small) refl

  accepted_is_chosen :
      (t : Task) (ts : List Task) (w w1 w' : World) (info : TaskInfo)
      → is_elsewhere seen t ≡ false
      → dependency_runs t w ≡ (ok true, w1)
      → is_too_small seen t ≡ false
      → (accept_task slave_id seen t >>= λ i. pure (some i)) w1 ≡ (ok (some info), w')
      → Finds (t ∷ ts) info w
  unfolding match_task
  accepted_is_chosen t ts w w1 w' info here asked large e =
      let (i, w2, accepted, same) =
        >>=-eq-ok (accept_task slave_id seen t) (λ i. pure (some i)) w1 w' (some info) e in
      let is_info : i ≡ info = cc (pure-eq-ok (some i) (some info) w2 w' same).0 in
      let (ps, parsed, prepared) = accept_task_prepares slave_id seen t w1 w2 i accepted in
      let (s, there, held) = dependency_held t slave_id seen w w1 w2 i asked accepted in
      (
        t,
        record {
          listed = inl refl;
          before = [];
          after = ts;
          split = refl;
          here = w;
          passed = refl;
          state = s;
          serving = there;
          fits = fits_lem s seen t ∙ (λ k. not (here k) && held k && not (large k));
          parameters = ps;
          parsed = parsed;
          prepared = sym is_info ∙ prepared;
        },
      )

  -- The rest of a round, once the service that the task depends on has been asked for.
  past_service :
      (t : Task) (ts : List Task) (next : Exec (Option TaskInfo)) (w w1 w' : World)
      (info : TaskInfo)
      → is_elsewhere seen t ≡ false
      → ((v v' : World) → next v ≡ (ok (some info), v') → Finds ts info v)
      → (runs : Bool) → dependency_runs t w ≡ (ok runs, w1)
      → (if not runs
            then next
            else if is_too_small seen t
            then next
            else (accept_task slave_id seen t >>= λ i. pure (some i)))
          w1
        ≡ (ok (some info), w')
      → Finds (t ∷ ts) info w
  past_service t ts next w w1 w' info here ih false asked e =
      later t ts info w w1 (unfit-Passes t w w1 false here asked refl) (ih w1 w' e)
  past_service t ts next w w1 w' info here ih true asked e =
      elim (Bool-cases (is_too_small seen t)) [
        | inl small ↦
            later t ts info w w1 (unfit-Passes t w w1 true here asked (rw small refl))
              (ih w1 w' (rw small at e))
        | inr large ↦ accepted_is_chosen t ts w w1 w' info here asked large (rw large at e)
      ]

  one_round_is_chosen :
      (t : Task) (ts : List Task) (next : Exec (Option TaskInfo)) (w w' : World) (info : TaskInfo)
      → ((v v' : World) → next v ≡ (ok (some info), v') → Finds ts info v)
      → match_one slave_id seen t next w ≡ (ok (some info), w')
      → Finds (t ∷ ts) info w
  unfolding match_one
  one_round_is_chosen t ts next w w' info ih e = elim (Bool-cases (is_elsewhere seen t)) [
    | inl away ↦ later t ts info w w (elsewhere-Passes t w away) (ih w w' (rw away at e))
    | inr here ↦
        let (runs, w1, asked, rest) =
          >>=-eq-ok (dependency_runs t) _ w w' (some info) (rw here at e) in
        past_service t ts next w w1 w' info here ih runs asked rest
  ]

  -- Whatever other threads do meanwhile: a launch that the inner loop prepares is that of a
  -- requested task such that the loop took none of those before it in the list, that fits what is
  -- offered as the plan has it - it names no other node, type or function than that of the offer,
  -- which has the cpu and the memory that it wants, and the service that it depends on, if any, is
  -- running at the moment at which the loop has come to it - and whose parameters parse.
  pub match_task-Chosen :
      (requested : List Task) (w w' : World) (info : TaskInfo)
      → match_task slave_id seen requested w ≡ (ok (some info), w')
      → (t : Task) × Chosen slave_id seen requested info t w
  unfolding match_task
  match_task-Chosen [] w w' info e = ground arith
  match_task-Chosen (t ∷ ts) w w' info e =
      one_round_is_chosen t ts (match_task slave_id seen ts) w w' info
        (λ v v' h. match_task-Chosen ts v v' info h) e
