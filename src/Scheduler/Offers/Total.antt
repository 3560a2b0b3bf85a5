-- ===== src/Scheduler/Offers/Total.antt =====
-- Whether `offers` of src/scheduler/scheduler_impl.rs comes to its end, while no other thread
-- interferes.
use mathlib.Core.List.{append-nil}
use torc_scheduler.Client.{
  World, Environment, Outcome, ok, continue, panic, Exec, pure, unwrap, when, ◌>>=◌, call_or_panic,
  try_call,
}
use torc_scheduler.Client.Accepting.{Accepts}
use torc_scheduler.Client.Quiet.{IsQuiet, Runs, Runs-request}
use torc_scheduler.Client.Total.{Ends, Ends-pure, Ends-bind, Ends-if, Ends-unwrap}
use torc_scheduler.Client.StateManager.{
  request_list_requested_tasks, request_is_node_active, send_update_node, request_task_state,
  send_update_task_state, send_update_task_node_name,
}
use torc_scheduler.Collaborator.{Effect, launch}
use torc_scheduler.Mesos.{Offer, Parameter, TaskInfo}
use torc_scheduler.Prelude.{
  ℕ, String, ◌≡◌, refl, sym, ap, subst, ◌∙◌, Bool, true, false, not, ◌||◌, Option, none, some, List,
  [], ◌∷◌, ◌++◌, is_empty, length, if◌then◌else◌,
}
use torc_scheduler.Prelude.Int.{ℤ}
use torc_scheduler.Records.{Task, TaskState, same_state}
use torc_scheduler.Scheduler.Container.{all_parameters, parameters_for, task_info_for}
use torc_scheduler.Scheduler.Offers.{
  Seen, Answers, no_answers, nothing_seen, answer, note_node, match_task, match_one, match_offers,
  accept_task, dependency_runs, is_elsewhere, is_too_small, read_offer, has_any, send_answers,
  offers,
}
use torc_scheduler.Scheduler.Offers.Answered.{
  Dealt, offer_ids, launches, match_offers-Answered, send_answers_trace, ap₃_launches,
}
use torc_scheduler.Server.{State, StateRequestMsg}
use torc_scheduler.Server.Handlers
use torc_scheduler.Server.Serve.{dispatch}
use torc_scheduler.TaskList

-- The docker parameters of every task parse.
abbrev pub AllParse : List Task → Type 0
AllParse [] = Unit
AllParse (t ∷ ts) =
    ((ps : List Parameter) × (parameters_for (all_parameters t) ≡ some ps)) × AllParse ts

module _ (now : ℤ) where
  note_node-Ends : (seen : Seen) (slave : String) (s : State) → Ends now (note_node seen slave) s
  unfolding note_node request_is_node_active send_update_node dispatch
      Handlers.handle_get_is_node_active Handlers.handle_update_node
  note_node-Ends seen slave s =
      Ends-bind now (request_is_node_active seen.node_name) _ s
        (_, _, Runs-request now _ (StateRequestMsg.get_is_node_active seen.node_name) s _ refl)
        (λ active s'.
          Ends-if now (not active)
            (send_update_node seen.node_name seen.node_type seen.node_function slave) (pure tt) s'
            (
              _,
              _,
              Runs-request now (λ _. tt)
                  (StateRequestMsg.update_node seen.node_name seen.node_type seen.node_function
                    slave)
                  s' _ refl,
            )
            (Ends-pure now tt s'))

  dependency_runs-Ends : (t : Task) (s : State) → Ends now (dependency_runs t) s
  unfolding dependency_runs request_task_state dispatch Handlers.handle_get_task_state
  dependency_runs-Ends t s =
      Ends-if now (is_empty t.dependent_service) (pure true) _ s (Ends-pure now true s) (
        Ends-bind now (request_task_state t.dependent_service) _ s
          (_, _, Runs-request now _ (StateRequestMsg.get_task_state t.dependent_service) s _ refl)
          (λ k s'. Ends-pure now (same_state k TaskState.running) s'))

  module _ (slave_id : String) (seen : Seen) where
    accept_task-Ends :
        (t : Task) (ps : List Parameter) (s : State)
        → parameters_for (all_parameters t) ≡ some ps
        → Ends now (accept_task slave_id seen t) s
    unfolding accept_task send_update_task_state send_update_task_node_name dispatch
        Handlers.handle_update_task_state Handlers.handle_update_task_node_name
    accept_task-Ends t ps s parsed =
        Ends-bind now (send_update_task_state t.name TaskState.accepted) _ s
          (
            _,
            _,
            Runs-request now (λ _. tt) (StateRequestMsg.update_task_state t.name TaskState.accepted)
                s _ refl,
          )
          (λ _ s1.
            Ends-bind now
              (when (not (is_empty t.node_type) || not (is_empty t.node_function))
                (send_update_task_node_name t.name seen.node_name))
              _ s1
              (Ends-if now (not (is_empty t.node_type) || not (is_empty t.node_function))
                (send_update_task_node_name t.name seen.node_name) (pure tt) s1
                (
                  _,
                  _,
                  Runs-request now (λ _. tt)
                      (StateRequestMsg.update_task_node_name t.name seen.node_name) s1 _ refl,
                )
                (Ends-pure now tt s1))
              (λ _ s2.
                Ends-bind now (unwrap (parameters_for (all_parameters t))) _ s2
                  (Ends-unwrap now (parameters_for (all_parameters t)) ps s2 parsed)
                  (λ qs s3. Ends-pure now (task_info_for t slave_id qs) s3)))

    match_one-Ends :
        (t : Task) (ps : List Parameter) (next : Exec (Option TaskInfo)) (s : State)
        → parameters_for (all_parameters t) ≡ some ps
        → ((s' : State) → Ends now next s')
        → Ends now (match_one slave_id seen t next) s
    unfolding match_one
    match_one-Ends t ps next s parsed ends = Ends-if now (is_elsewhere seen t) next _ s (ends s) (
        Ends-bind now (dependency_runs t) _ s (dependency_runs-Ends t s) (λ runs s1.
          Ends-if now (not runs) next _ s1 (ends s1) (
            Ends-if now (is_too_small seen t) next _ s1 (ends s1) (
              Ends-bind now (accept_task slave_id seen t) _ s1 (accept_task-Ends t ps s1 parsed)
                (λ info s2. Ends-pure now (some info) s2)))))

    match_task-Ends :
        (requested : List Task) (s : State)
        → AllParse requested
        → Ends now (match_task slave_id seen requested) s
    unfolding match_task
    match_task-Ends [] s h = Ends-pure now none s
    match_task-Ends (t ∷ ts) s h =
        match_one-Ends t h.0.0 (match_task slave_id seen ts) s h.0.1
          (λ s'. match_task-Ends ts s' h.1)

  match_offers-Ends :
      (slave_id : String) (requested : List Task) (os : List Offer) (seen : Seen) (a : Answers)
      (s : State)
      → AllParse requested
      → Ends now (match_offers slave_id requested os seen a) s
  unfolding match_offers
  match_offers-Ends slave_id requested [] seen a s h = Ends-pure now a s
  match_offers-Ends slave_id requested (o ∷ os) seen a s h =
      let seen' = read_offer o seen in
      Ends-bind now (note_node seen' o.slave_id) _ s (note_node-Ends seen' o.slave_id s) (λ _ s1.
        Ends-bind now (match_task slave_id seen' requested) _ s1
          (match_task-Ends slave_id seen' requested s1 h)
          (λ found s2. match_offers-Ends slave_id requested os seen' (answer o.id found a) s2 h))

when_accepted :
    (b : Bool) (effect : Effect) (w : World)
    → Accepts w
    → (w' : World) × (when b (call_or_panic effect) w ≡ (ok tt, w')) × Accepts w'
unfolding call_or_panic try_call
when_accepted true effect w h =
    let w' : World = record w { trace = w.trace ++ effect ∷ [] } in
    (w', ap (λ b. (if b then pure tt else panic) w') (h (length w.trace)), h)
when_accepted false effect w h = (w, refl, h)

send_answers_accepted :
    (a : Answers) (w : World) → Accepts w → (w' : World) × (send_answers a w ≡ (ok tt, w'))
unfolding send_answers
send_answers_accepted a w h =
    let declining : Exec (Unit {0}) =
      when (has_any a.offers_to_decline) (call_or_panic (launch a.offers_to_decline [])) in
    let (w1, first, h1) =
      when_accepted (has_any a.tasks_to_start) (launch a.offers_to_accept a.tasks_to_start) w h in
    let (w2, second, _) =
      when_accepted (has_any a.offers_to_decline) (launch a.offers_to_decline []) w1 h1 in
    (w2, ap (λ (p : Outcome (Unit {0}) × World). continue p.0 (λ _. declining) p.1) first ∙ second)

abbrev pub requested_in : State → List Task
requested_in s = TaskList.get_tasks_with_state TaskState.requested s.task_list

pub Runs-requested :
    (now : ℤ) (s : State) → Runs now request_list_requested_tasks s (requested_in s) [] s
unfolding request_list_requested_tasks dispatch Handlers.handle_get_requested_tasks
Runs-requested now s = Runs-request now _ StateRequestMsg.get_requested_tasks s _ refl

-- In a quiet environment in which calls of other systems succeed: if the docker parameters of every
-- requested task parse, the callback for one or more offers ends without a panic, and its calls are
-- exactly the answers to the offers, each answered once, the accepted ones in one launch of as many
-- tasks as there are accepted offers and the others in a launch of no task.
pub offers_answers_all :
    (now : ℤ) (s : State) (o : Offer) (os : List Offer) (w : World)
    → IsQuiet now s w
    → Accepts w
    → AllParse (TaskList.get_tasks_with_state TaskState.requested s.task_list)
    → (w' : World) × (infos : List TaskInfo) × (ls : List String) × (rs : List String) × (offers
          (o ∷ os)
          w
        ≡ (ok tt, w'))
      × Dealt (offer_ids (o ∷ os)) ls rs
      × (length infos ≡ length ls)
      × (w'.trace ≡ w.trace ++ launches infos ls rs)
unfolding offers
offers_answers_all now s o os w q accepts parse =
    let requested : List Task = requested_in s in
    let matching : List Task → Exec Answers =
      λ ts. match_offers o.slave_id ts (o ∷ os) nothing_seen no_answers in
    let (w1, asked, trace1, q1, env1) = (Runs-requested now s).at w q in
    let (b, s2, runs) =
      match_offers-Ends now o.slave_id requested (o ∷ os) nothing_seen no_answers s parse in
    let (w2, matched, trace2, q2, env2) = runs.at w1 q1 in
    let same_env : w.env ≡ w2.env = sym (env2 ∙ env1) in
    let (w3, sent) =
      send_answers_accepted b w2
        (subst (λ (v : Environment). (n : ℕ) → v.accepts n ≡ true) same_env accepts) in
    let (infos, ls, rs, dealt, len, es, ea, ed) =
      match_offers-Answered o.slave_id requested (o ∷ os) nothing_seen no_answers b w1 w2 matched in
    let same_trace : w2.trace ≡ w.trace =
      trace2 ∙ append-nil w1.trace ∙ trace1 ∙ append-nil w.trace in
    (
      w3,
      infos,
      ls,
      rs,
      ap
            (λ (p : Outcome (List Task) × World).
              continue p.0 (λ ts. matching ts >>= send_answers) p.1)
            asked
          ∙ ap (λ (p : Outcome Answers × World). continue p.0 send_answers p.1) matched
          ∙ sent,
      dealt,
      len,
      send_answers_trace b w2 w3 sent
          ∙ ap₃_launches w2.trace es ea ed
          ∙ ap (λ l. l ++ launches infos ls rs) same_trace,
    )
