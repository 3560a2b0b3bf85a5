-- ===== src/Scheduler/Offers/Answered.antt =====
-- How `offers` of src/scheduler/scheduler_impl.rs answers the offers that it is given, in any
-- environment.
use mathlib.Core.List.{append-nil, append_assoc}
use torc_scheduler.Client.{World, ok, when, call_or_panic}
use torc_scheduler.Client.Answerless.{NoAnswer, Quietly-trans, ran-Quietly}
use torc_scheduler.Client.Ends.{>>=-eq-ok, pure-eq-ok, when-call_or_panic}
use torc_scheduler.Client.StateManager.{request_list_requested_tasks}
use torc_scheduler.Collaborator.{Effect, launch}
use torc_scheduler.Mesos.{Offer, TaskInfo}
use torc_scheduler.Prelude.{
  suc, String, ◌≡◌, refl, sym, ap, ◌∙◌, Option, none, some, List, [], ◌∷◌, ◌++◌, arith, length,
  if◌then◌else◌,
}
use torc_scheduler.Records.{Task}
use torc_scheduler.Scheduler.Offers.Answerless.{
  request_list_requested_tasks-Answerless, match_offers-Answerless,
}
use torc_scheduler.Scheduler.Offers.{
  Seen, Answers, no_answers, nothing_seen, answer, note_node, match_task, match_offers, read_offer,
  has_any, send_answers, offers,
}

abbrev pub offer_ids : List Offer → List String
offer_ids [] = []
offer_ids (o ∷ os) = o.id ∷ offer_ids os

-- The ids are dealt out to two lists, each to one of them, and keep their order.
pub data Dealt : List String → List String → List String → Type 0 where
  nil : Dealt [] [] []
  left : {ids ls rs : List String} (id : String) → Dealt ids ls rs → Dealt (id ∷ ids) (id ∷ ls) rs
  right : {ids ls rs : List String} (id : String) → Dealt ids ls rs → Dealt (id ∷ ids) ls (id ∷ rs)

-- What the answers `b` add to `a` for the offers `ids`: each is accepted with one task, or declined.
abbrev pub Answered : List String → Answers → Answers → Type 0
Answered ids a b =
    (infos : List TaskInfo) × (ls : List String) × (rs : List String) × Dealt ids ls rs
    × (length infos ≡ length ls)
    × (b.tasks_to_start ≡ a.tasks_to_start ++ infos)
    × (b.offers_to_accept ≡ a.offers_to_accept ++ ls)
    × (b.offers_to_decline ≡ a.offers_to_decline ++ rs)

Answered-cons :
    (id : String) (found : Option TaskInfo) (ids : List String) (a b : Answers)
    → Answered ids (answer id found a) b
    → Answered (id ∷ ids) a b
Answered-cons id none ids a b (infos, ls, rs, dealt, len, es, ea, ed) =
    (infos, ls, id ∷ rs, right id dealt, len, es, ea, ed ∙ append_assoc a.offers_to_decline _ _)
Answered-cons id (some info) ids a b (infos, ls, rs, dealt, len, es, ea, ed) = (
  info ∷ infos,
  id ∷ ls,
  rs,
  left id dealt,
  ap suc len,
  es ∙ append_assoc a.tasks_to_start _ _,
  ea ∙ append_assoc a.offers_to_accept _ _,
  ed,
)

pub match_offers-Answered :
    (slave_id : String) (requested : List Task) (os : List Offer) (seen : Seen) (a b : Answers)
    (w w' : World)
    → match_offers slave_id requested os seen a w ≡ (ok b, w')
    → Answered (offer_ids os) a b
unfolding match_offers
match_offers-Answered slave_id requested [] seen a b w w' e =
    let same : a ≡ b = (pure-eq-ok a b w w' e).0 in
    (
      [],
      [],
      [],
      nil,
      refl,
      ap (λ (c : Answers). c.tasks_to_start) (sym same) ∙ sym (append-nil a.tasks_to_start),
      ap (λ (c : Answers). c.offers_to_accept) (sym same) ∙ sym (append-nil a.offers_to_accept),
      ap (λ (c : Answers). c.offers_to_decline) (sym same) ∙ sym (append-nil a.offers_to_decline),
    )
match_offers-Answered slave_id requested (o ∷ os) seen a b w w' e =
    let seen' = read_offer o seen in
    let (_, w1, _, later) = >>=-eq-ok (note_node seen' o.slave_id) _ w w' b e in
    let (found, w2, _, rest) = >>=-eq-ok (match_task slave_id seen' requested) _ w1 w' b later in
    Answered-cons o.id found (offer_ids os) a b
      (match_offers-Answered slave_id requested os seen' (answer o.id found a) b w2 w' rest)

-- The calls of mesos that answer: one launch of the tasks on the accepted offers, and one of no task
-- on those declined, each left out if it has nothing to say.
abbrev pub launches : List TaskInfo → List String → List String → List Effect
launches infos ls rs =
    (if has_any infos then launch ls infos ∷ [] else [])
    ++ (if has_any rs then launch rs [] ∷ [] else [])

pub ap₃_launches :
    (before : List Effect) {xs infos : List TaskInfo} {ys ls zs rs : List String}
    → xs ≡ infos
    → ys ≡ ls
    → zs ≡ rs
    → before ++ launches xs ys zs ≡ before ++ launches infos ls rs
ap₃_launches before p q r = λ i. before ++ launches (p i) (q i) (r i)

pub send_answers_trace :
    (a : Answers) (w w' : World)
    → send_answers a w ≡ (ok tt, w')
    → w'.trace ≡ w.trace ++ launches a.tasks_to_start a.offers_to_accept a.offers_to_decline
unfolding send_answers
send_answers_trace a w w' e =
    let (_, w1, first, second) =
      >>=-eq-ok
        (when (has_any a.tasks_to_start)
          (call_or_panic (launch a.offers_to_accept a.tasks_to_start)))
        (λ _. when (has_any a.offers_to_decline) (call_or_panic (launch a.offers_to_decline []))) w
        w' tt e in
    when-call_or_panic (has_any a.offers_to_decline) (launch a.offers_to_decline []) w1 w' second
    ∙ ap
        (λ l. l ++ (if has_any a.offers_to_decline then launch a.offers_to_decline [] ∷ [] else []))
        (when-call_or_panic (has_any a.tasks_to_start) (launch a.offers_to_accept a.tasks_to_start)
          w w1 first)
    ∙ append_assoc w.trace _ _

-- Whatever other threads do meanwhile: if the callback for offers ends without a panic, it has
-- answered every offer exactly once: of the calls made since it began, those before its last do not
-- answer offers, and the last are one launch of as many tasks as there are accepted offers, on
-- those, and one of no task on the others, each left out if there are no such offers.
pub offers_answered_once :
    (os : List Offer) (w w' : World)
    → offers os w ≡ (ok tt, w')
    → (infos : List TaskInfo) × (ls : List String) × (rs : List String) × (others : List Effect)
      × Dealt (offer_ids os) ls rs
      × (length infos ≡ length ls)
      × NoAnswer others
      × (w'.trace ≡ (w.trace ++ others) ++ launches infos ls rs)
unfolding offers
offers_answered_once [] w w' e = ground arith
offers_answered_once (o ∷ os) w w' e =
    let (requested, w1, asked, matching) = >>=-eq-ok request_list_requested_tasks _ w w' tt e in
    let (b, w2, matched, sending) =
      >>=-eq-ok (match_offers o.slave_id requested (o ∷ os) nothing_seen no_answers) _ w1 w' tt
        matching in
    let (infos, ls, rs, dealt, len, es, ea, ed) =
      match_offers-Answered o.slave_id requested (o ∷ os) nothing_seen no_answers b w1 w2 matched in
    let quiet =
      Quietly-trans w w1 w2
        (ran-Quietly request_list_requested_tasks request_list_requested_tasks-Answerless w w1
          requested asked)
        (ran-Quietly (match_offers o.slave_id requested (o ∷ os) nothing_seen no_answers)
          (match_offers-Answerless o.slave_id requested (o ∷ os) nothing_seen no_answers) w1 w2 b
          matched) in
    (
      infos,
      ls,
      rs,
      quiet.calls,
      dealt,
      len,
      quiet.none_answers,
      send_answers_trace b w2 w' sending
          ∙ ap₃_launches w2.trace es ea ed
          ∙ ap (λ l. l ++ launches infos ls rs) quiet.made,
    )
