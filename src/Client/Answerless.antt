-- ===== src/Client/Answerless.antt =====
-- Actions that answer no offer of mesos, nor does anything that comes in between. One rule for each way to build
-- an action.
use mathlib.Core.List.{append-nil, append_assoc}
use torc_scheduler.Client.{
  World, Event, served, clock, poisoning, Outcome, ok, panicked, Exec, pure, unwrap, continue,
  ◌>>=◌, call, deliver, round, after_round, yield, interfere, happens,
}
use torc_scheduler.Collaborator.{Effect}
use torc_scheduler.Collaborator.Consul.{register_running_task}
use torc_scheduler.Prelude.{
  suc, String, ◌≡◌, refl, sym, ap, subst, ◌∙◌, Bool, true, false, Option, none, some, List, [], ◌∷◌,
  ◌++◌, inl, inr, Option-cases, if◌then◌else◌,
}
use torc_scheduler.Prelude.Int.{ℤ}
use torc_scheduler.NodeList
use torc_scheduler.Records.{Task, TaskState}
use torc_scheduler.TaskList
use torc_scheduler.Server.{State, StateRequestMsg, StateResponseMsg, Served}
use torc_scheduler.Server.Handlers
use torc_scheduler.Server.Serve.{dispatch}

-- The calls of mesos that answer offers.
abbrev pub is_answer : Effect → Bool
is_answer (Effect.launch ids infos) = true
is_answer (Effect.decline ids) = true
is_answer e = false

-- No call among them answers an offer.
abbrev pub NoAnswer : List Effect → Type 0
NoAnswer [] = Unit
NoAnswer (e ∷ es) = (is_answer e ≡ false) × NoAnswer es

append-NoAnswer : (es fs : List Effect) → NoAnswer es → NoAnswer fs → NoAnswer (es ++ fs)
append-NoAnswer [] fs h k = k
append-NoAnswer (e ∷ es) fs h k = (h.0, append-NoAnswer es fs h.1 k)

-- From a world to a later one no offer is answered.
pub record Quietly (w w' : World) : Type 0 where
  pub calls : List Effect
  pub made : w'.trace ≡ w.trace ++ calls
  pub none_answers : NoAnswer calls

Quietly-same : (w w' : World) → w'.trace ≡ w.trace → Quietly w w'
Quietly-same w w' e = record { calls = []; made = e ∙ sym (append-nil w.trace); none_answers = tt }

pub Quietly-trans : (w w1 w2 : World) → Quietly w w1 → Quietly w1 w2 → Quietly w w2
Quietly-trans w w1 w2 p q = record {
  calls = p.calls ++ q.calls;
  made = q.made ∙ ap (λ l. l ++ q.calls) p.made ∙ append_assoc w.trace p.calls q.calls;
  none_answers = append-NoAnswer p.calls q.calls p.none_answers q.none_answers;
}

-- The calls that a round of the serving thread makes.
abbrev effects_of : Option Served → List Effect
effects_of none = []
effects_of (some r) = r.effects

registration-NoAnswer :
    (s : State) (n : String) (k : TaskState) (l : TaskList.TaskList)
    → NoAnswer (Handlers.registration s n k l)
unfolding register_running_task
registration-NoAnswer s n TaskState.running l = of_task (TaskList.get_task n l)
  where
    of_task :
        (o : Option Task)
        → NoAnswer (elim o [ some t ↦ register_running_task s.master_ip t | none ↦ [] ])
    of_task none = tt
    of_task (some t) = (refl, tt)
registration-NoAnswer s n _ l = tt

get_node-NoAnswer : (s : State) (n : String) → NoAnswer (effects_of (Handlers.handle_get_node s n))
unfolding Handlers.handle_get_node
get_node-NoAnswer s n = elim (Option-cases (NodeList.get_node n s.node_list)) [
  | inl e ↦ rw (e, NoAnswer, effects_of) tt
  | inr (v, e) ↦ rw (e, NoAnswer, effects_of) tt
]

dispatch-NoAnswer :
    (now : ℤ) (s : State) (msg : StateRequestMsg) → NoAnswer (effects_of (dispatch now s msg))
unfolding dispatch Handlers.handle_ping Handlers.handle_get_task_state Handlers.handle_get_task_ip
    Handlers.handle_get_task_name_by_id Handlers.handle_update_task_state
    Handlers.handle_update_task_node_name Handlers.handle_update_task_info
    Handlers.handle_update_task_last_update Handlers.handle_start_task Handlers.handle_restart_task
    Handlers.handle_get_is_restartable_task Handlers.handle_remove_task_by_name
    Handlers.handle_get_requested_tasks Handlers.handle_get_running_tasks
    Handlers.handle_get_restart_tasks Handlers.handle_add_node Handlers.handle_get_is_node_active
    Handlers.handle_update_node Handlers.handle_set_node_inactive Handlers.handle_get_nodes
dispatch-NoAnswer now s (StateRequestMsg.get_node n) = get_node-NoAnswer s n
dispatch-NoAnswer now s (StateRequestMsg.update_task_state n k) = registration-NoAnswer s n k _
dispatch-NoAnswer now s _ = tt

Quietly-deliver : (msg : StateRequestMsg) (w : World) → Quietly w (deliver msg w).1
unfolding deliver
Quietly-deliver msg w = of_state w.server
  where
    of_round : (d : Option Served) → NoAnswer (effects_of d) → Quietly w (after_round w d).1
    of_round none h = Quietly-same w (record w { server = none }) refl
    of_round (some r) h = record { calls = r.effects; made = refl; none_answers = h }

    of_state : (o : Option State) → Quietly w (round msg o w).1
    of_state none = Quietly-same w w refl
    of_state (some s) = of_round (dispatch w.now s msg) (dispatch-NoAnswer w.now s msg)

Quietly-happens : (e : Event) (w : World) → Quietly w (happens e w)
unfolding happens
Quietly-happens (served msg) w = Quietly-deliver msg w
Quietly-happens (clock t) w = Quietly-same w (record w { now = t }) refl
Quietly-happens (poisoning m) w = Quietly-same w (record w { poisoned = m ∷ w.poisoned }) refl

Quietly-interfere : (events : List Event) (w : World) → Quietly w (interfere events w)
unfolding interfere
Quietly-interfere [] w = Quietly-same w w refl
Quietly-interfere (e ∷ events) w =
    Quietly-trans w (happens e w) (interfere events (happens e w)) (Quietly-happens e w)
      (Quietly-interfere events (happens e w))

-- Whatever comes of the action, it answers no offer.
pub record Answerless {A : Type 0} (m : Exec A) : Type 0 where
  pub at : (w : World) → Quietly w (m w).1

module _ {A : Type 0} where
  pub Answerless-pure : (a : A) → Answerless (pure a)
  Answerless-pure a = record { at = λ w. Quietly-same w w refl }

  pub Answerless-unwrap : (o : Option A) → Answerless (unwrap o)
  Answerless-unwrap none = record { at = λ w. Quietly-same w w refl }
  Answerless-unwrap (some a) = Answerless-pure a

  pub Answerless-if :
      (b : Bool) (m k : Exec A) → Answerless m → Answerless k → Answerless (if b then m else k)
  Answerless-if true m k p q = p
  Answerless-if false m k p q = q

pub Answerless-bind :
    {A B : Type 0} (m : Exec A) (f : A → Exec B)
    → Answerless m
    → ((a : A) → Answerless (f a))
    → Answerless (m >>= f)
Answerless-bind {A} {B} m f p q = record { at = λ w. go w (m w) (p.at w) }
  where
    go : (w : World) (r : Outcome A × World) → Quietly w r.1 → Quietly w (continue r.0 f r.1).1
    go w (ok a, w') h = Quietly-trans w w' (f a w').1 h ((q a).at w')
    go w (panicked, w') h = h

Answerless-call : (msg : StateRequestMsg) → Answerless (call msg)
unfolding call yield
Answerless-call msg = record {
  at = λ w.
      let w0 : World = record w { turn = suc w.turn } in
      let w1 = yield w in
      let (answer, w2) = deliver msg w1 in
      Quietly-trans w w1 (unwrap answer w2).1
        (Quietly-trans w w0 w1 (Quietly-same w w0 refl)
          (Quietly-interfere (w.env.events w.turn) w0))
        (Quietly-trans w1 w2 (unwrap answer w2).1 (Quietly-deliver msg w1)
          ((Answerless-unwrap answer).at w2));
}

-- A run that ended in a world.
pub ran-Quietly :
    {A : Type 0} (m : Exec A)
    → Answerless m
    → (w w' : World) (a : A) → m w ≡ (ok a, w')
    → Quietly w w'
ran-Quietly {A} m p w w' a e =
    subst (λ v. Quietly w v) (ap (λ (r : Outcome A × World). r.1) e) (p.at w)

-- A message whose answer is read.
pub Answerless-request :
    {A : Type 0} (msg : StateRequestMsg) (f : StateResponseMsg → A)
    → Answerless (call msg >>= λ answer. pure (f answer))
Answerless-request msg f =
    Answerless-bind (call msg) _ (Answerless-call msg) (λ answer. Answerless-pure (f answer))
