-- ===== src/Scheduler/Offers/Matched.antt =====
-- `offers` of src/scheduler/scheduler_impl.rs up to its answers, while no other thread interferes.
use mathlib.Core.List.{append-nil, append_assoc}
use torc_scheduler.Client.{World, Outcome, Exec, continue, ◌>>=◌}
use torc_scheduler.Client.Quiet.{IsQuiet, Runs, Runs-pure, Runs-bind}
use torc_scheduler.Mesos.{Offer}
use torc_scheduler.NodeList
use torc_scheduler.Prelude.{
  String, ◌≡◌, refl, sym, ap, subst, ◌∙◌, Bool, false, none, some, List, [], ◌∷◌, ◌++◌, inl, inr,
  Option-cases, Member,
}
use torc_scheduler.Prelude.Int.{ℤ}
use torc_scheduler.Records.{Task, TaskState, same_state}
use torc_scheduler.Scheduler.Offers.{
  Seen, Answers, no_answers, nothing_seen, answer, match_offers, match_task, note_node, read_offer,
  send_answers, offers,
}
use torc_scheduler.Scheduler.Offers.Plan.{
  Placement, plan, first_fit, infos, accepted_ids, declined_ids, task_after_plan, node_after_plan,
  placed,
}
use torc_scheduler.Scheduler.Offers.Planned.{
  runs_in, noted, after_found, found_info, Runs-note_node, Runs-match_task,
}
use torc_scheduler.Scheduler.Offers.Total.{AllParse, requested_in, Runs-requested}
use torc_scheduler.Scheduler.Offers.Views.{
  AllDown, FoundDown, first_fit-FoundDown, runs_in-after_found, get_task-after_found,
  node_list-after_found, master_ip-placed, runs_in_lem, task_list-noted, get_node-noted,
}
use torc_scheduler.Server.{State}
use torc_scheduler.Server.Validity.{IsValid}
use torc_scheduler.TaskList
use torc_scheduler.TaskList.Queries.{member-get_tasks_with_state}

abbrev pub after_placement : ℤ → Placement → State → State
after_placement now p s = after_found p.seen p.task (noted now p.seen p.offer.slave_id s)

abbrev pub after_plan : ℤ → List Placement → State → State
after_plan now [] s = s
after_plan now (p ∷ ps) s = after_plan now ps (after_placement now p s)

abbrev pub answers_of : String → List Placement → Answers → Answers
answers_of slave_id [] a = a
answers_of slave_id (p ∷ ps) a =
    answers_of slave_id ps (answer p.offer.id (found_info slave_id p.task) a)

abbrev runs_of : TaskList.TaskList → String → Bool
runs_of l d = same_state (TaskList.get_task_state d l) TaskState.running

module _ (now : ℤ) (slave_id : String) (requested : List Task) (parse : AllParse requested) where
  pub Runs-match_offers :
      (os : List Offer) (seen : Seen) (s : State) (a : Answers) (runs : String → Bool)
      → AllDown runs requested
      → runs_in s ≡ runs
      → Runs now
          (match_offers slave_id requested os seen a)
          s
          (answers_of slave_id (plan runs seen requested os) a)
          []
          (after_plan now (plan runs seen requested os) s)
  unfolding match_offers plan
  Runs-match_offers [] seen s a runs down same = Runs-pure now a s
  Runs-match_offers (o ∷ os) seen s a runs down same =
      let seen' = read_offer o seen in
      let s1 = noted now seen' o.slave_id s in
      let found = first_fit runs seen' requested in
      let s2 = after_found seen' found s1 in
      let p : Placement = record { offer = o; seen = seen'; task = found } in
      let same1 : runs_in s1 ≡ runs = ap runs_of (task_list-noted now p s) ∙ same in
      let same2 : runs_in s2 ≡ runs =
        (λ i d.
          runs_in-after_found seen' s1 found
            (subst (λ r. FoundDown r found) (sym same1)
              (first_fit-FoundDown runs seen' requested down))
            d i)
        ∙ same1 in
      let matched : Runs now (match_task slave_id seen' requested) s1 (found_info slave_id found) []
          s2 =
        subst
          (λ (r : String → Bool).
            Runs now (match_task slave_id seen' requested) s1
              (found_info slave_id (first_fit r seen' requested)) []
              (after_found seen' (first_fit r seen' requested) s1))
          same1 (Runs-match_task now slave_id seen' requested s1 parse) in
      let rest =
        Runs-match_offers os seen' s2 (answer o.id (found_info slave_id found) a) runs down same2 in
      Runs-bind now (note_node seen' o.slave_id) _ s s1 _ tt _ [] []
        (Runs-note_node now seen' o.slave_id s)
        (Runs-bind now (match_task slave_id seen' requested) _ s1 s2 _ _ _ [] [] matched rest)

pub answers_of_lem :
    (slave_id : String) (ps : List Placement) (a : Answers)
    → ((answers_of slave_id ps a).tasks_to_start ≡ a.tasks_to_start ++ infos slave_id ps)
      × ((answers_of slave_id ps a).offers_to_accept ≡ a.offers_to_accept ++ accepted_ids ps)
      × ((answers_of slave_id ps a).offers_to_decline ≡ a.offers_to_decline ++ declined_ids ps)
answers_of_lem slave_id [] a = (
  sym (append-nil a.tasks_to_start),
  sym (append-nil a.offers_to_accept),
  sym (append-nil a.offers_to_decline),
)
answers_of_lem slave_id (p ∷ ps) a = elim (Option-cases p.task) [
  | inl e ↦
      let (starts, accepts, declines) = answers_of_lem slave_id ps (answer p.offer.id none a) in
      rw e (starts, accepts, declines ∙ append_assoc a.offers_to_decline _ _)
  | inr (t, e) ↦
      let (starts, accepts, declines) =
        answers_of_lem slave_id ps (answer p.offer.id (found_info slave_id (some t)) a) in
      rw e (
        starts ∙ append_assoc a.tasks_to_start _ _,
        accepts ∙ append_assoc a.offers_to_accept _ _,
        declines,
      )
]

pub master_ip-after_plan :
    (now : ℤ) (ps : List Placement) (s : State) → (after_plan now ps s).master_ip ≡ s.master_ip
master_ip-after_plan now [] s = refl
master_ip-after_plan now (p ∷ ps) s =
    master_ip-after_plan now ps (after_placement now p s) ∙ master_ip-placed now p s

pub get_task-after_plan :
    (now : ℤ) (n : String) (ps : List Placement) (s : State)
    → TaskList.get_task n (after_plan now ps s).task_list
      ≡ task_after_plan ps n (TaskList.get_task n s.task_list)
get_task-after_plan now n [] s = refl
get_task-after_plan now n (p ∷ ps) s =
    get_task-after_plan now n ps (after_placement now p s)
    ∙ ap (task_after_plan ps n) (
        get_task-after_found p.seen (noted now p.seen p.offer.slave_id s) p.task p refl refl n
        ∙ ap (λ l. placed p n (TaskList.get_task n l)) (task_list-noted now p s))

pub get_node-after_plan :
    (now : ℤ) (n : String) (ps : List Placement) (s : State)
    → NodeList.get_node n (after_plan now ps s).node_list
      ≡ node_after_plan now ps n (NodeList.get_node n s.node_list)
get_node-after_plan now n [] s = refl
get_node-after_plan now n (p ∷ ps) s =
    get_node-after_plan now n ps (after_placement now p s)
    ∙ ap (node_after_plan now ps n) (
        ap (NodeList.get_node n)
          (node_list-after_found p.seen (noted now p.seen p.offer.slave_id s) p.task)
        ∙ get_node-noted now p s n)

all_down :
    (runs : String → Bool) (ts : List Task)
    → ((t : Task) → Member t ts → runs t.name ≡ false)
    → AllDown runs ts
all_down runs [] h = tt
all_down runs (t ∷ ts) h = (h t (inl refl), all_down runs ts (λ u m. h u (inr m)))

-- A task that is requested does not run.
requested_down : (s : State) → IsValid s → AllDown (runs_in s) (requested_in s)
unfolding same_state
requested_down s h = all_down (runs_in s) (requested_in s) (λ t m.
    let (stored, waits) =
      (member-get_tasks_with_state t TaskState.requested s.task_list h.tasks).0 m in
    runs_in_lem t.name s ∙ rw stored (rw waits refl))

-- What the callback does, decided beforehand.
abbrev pub plan_for : State → List Offer → List Placement
plan_for s os = plan (runs_in s) nothing_seen (requested_in s) os

-- The callback up to its answers.
pub offers_matched :
    (now : ℤ) (s : State) (o : Offer) (os : List Offer) (w : World)
    → IsQuiet now s w
    → IsValid s
    → AllParse (requested_in s)
    → (w' : World) × (offers (o ∷ os) w
        ≡ send_answers (answers_of o.slave_id (plan_for s (o ∷ os)) no_answers) w')
      × (w'.trace ≡ w.trace)
      × IsQuiet now (after_plan now (plan_for s (o ∷ os)) s) w'
      × (w'.env ≡ w.env)
unfolding offers
offers_matched now s o os w q valid parse =
    let (w1, asked, trace1, q1, env1) = (Runs-requested now s).at w q in
    let (w2, matched, trace2, q2, env2) =
      (Runs-match_offers now o.slave_id (requested_in s) parse (o ∷ os) nothing_seen s no_answers
          (runs_in s) (requested_down s valid) refl).at
        w1 q1 in
    let matching : List Task → Exec Answers =
      λ ts. match_offers o.slave_id ts (o ∷ os) nothing_seen no_answers in
    (
      w2,
      ap
            (λ (p : Outcome (List Task) × World).
              continue p.0 (λ ts. matching ts >>= send_answers) p.1)
            asked
          ∙ ap (λ (p : Outcome Answers × World). continue p.0 send_answers p.1) matched,
      trace2 ∙ append-nil w1.trace ∙ trace1 ∙ append-nil w.trace,
      q2,
      env2 ∙ env1,
    )
