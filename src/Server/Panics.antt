-- ===== src/Server/Panics.antt =====
-- When the serving thread of src/state/state.rs panics, and what comes after.
use torc_scheduler.NodeList
use torc_scheduler.NodeList.{NodeList}
use torc_scheduler.Prelude.{
  String, ◌≡◌, refl, ◌≢◌, ◌↔◌, Option, none, some, List, [], ◌∷◌, ◌++◌, arith, ap, subst, sym, ◌∙◌,
  inl, inr, Option-cases,
}
use torc_scheduler.Prelude.Int.{ℤ}
use torc_scheduler.Records.{Node}
use torc_scheduler.Server.{State, StateRequestMsg, Served}
use torc_scheduler.Server.Handlers
use torc_scheduler.Server.Refinement.{Refines, node_after, node_history, dispatch-Refines}
use torc_scheduler.Server.Serve.{dispatch, serve_all, next_state}

-- The message asks for a node that is not in the list.
abbrev pub AsksUnknownNode : State → StateRequestMsg → Type 0
AsksUnknownNode s (StateRequestMsg.get_node n) = NodeList.get_node n s.node_list ≡ none
AsksUnknownNode s _ = ⊥

get_node_panics_iff :
    (s : State) (n : String)
    → (Handlers.handle_get_node s n ≡ none) ↔ (NodeList.get_node n s.node_list ≡ none)
unfolding Handlers.handle_get_node
get_node_panics_iff s n = ground arith

pub dispatch_panics_iff :
    (now : ℤ) (s : State) (msg : StateRequestMsg)
    → (dispatch now s msg ≡ none) ↔ AsksUnknownNode s msg
unfolding dispatch
dispatch_panics_iff now s (StateRequestMsg.get_node n) = get_node_panics_iff s n
dispatch_panics_iff now s _ = (λ e. cc, λ h. absurd h)

-- The message names no node, or one of the names in `known`.
abbrev pub AsksOnly : (String → Type 0) → StateRequestMsg → Type 0
AsksOnly Known (StateRequestMsg.get_node n) = Known n
AsksOnly Known _ = Unit

abbrev pub AllAskOnly : (String → Type 0) → List (ℤ × StateRequestMsg) → Type 0
AllAskOnly Known [] = Unit
AllAskOnly Known ((now, msg) ∷ msgs) = AsksOnly Known msg × AllAskOnly Known msgs

abbrev pub IsKnown : State → String → Type 0
IsKnown s n = NodeList.get_node n s.node_list ≢ none

-- No message takes a node out of the list.
node_after_known :
    (now : ℤ) (msg : StateRequestMsg) (n : String) (o : Option Node)
    → o ≢ none
    → node_after now msg n o ≢ none
node_after_known now StateRequestMsg.ping n o h = h
node_after_known now _ n o h = ground arith

not-AsksUnknownNode :
    (Known : String → Type 0) (s : State) (msg : StateRequestMsg)
    → ((n : String) → Known n → IsKnown s n)
    → AsksOnly Known msg
    → ¬ AsksUnknownNode s msg
not-AsksUnknownNode Known s (StateRequestMsg.get_node n) known asks = known n asks
not-AsksUnknownNode Known s _ known asks = λ h. h

-- While messages ask only for nodes that are known, no round panics, and they stay known.
dispatch_total :
    (Known : String → Type 0) (now : ℤ) (s : State) (msg : StateRequestMsg)
    → ((n : String) → Known n → IsKnown s n)
    → AsksOnly Known msg
    → (r : Served) × (dispatch now s msg ≡ some r) × ((n : String) → Known n → IsKnown r.state n)
dispatch_total Known now s msg known asks = elim (Option-cases (dispatch now s msg)) [
  | inl e ↦
      absurd (not-AsksUnknownNode Known s msg known asks ((dispatch_panics_iff now s msg).0 e))
  | inr (r, e) ↦ (
    r,
    e,
    λ n k gone.
        let refines : Refines now s msg (some r) =
          subst (λ d. Refines now s msg d) e (dispatch-Refines now s msg) in
        node_after_known now msg n (NodeList.get_node n s.node_list) (known n k)
          (sym (refines.1 n) ∙ gone),
  )
]

-- From a state that knows certain nodes, no sequence of messages that asks only for those makes the
-- serving thread panic, whatever else the messages do; there is a state after them and it still
-- knows those nodes.
pub serve_all_total :
    (Known : String → Type 0) (msgs : List (ℤ × StateRequestMsg)) (s : State)
    → ((n : String) → Known n → IsKnown s n)
    → AllAskOnly Known msgs
    → (s' : State) × (serve_all msgs (some s) ≡ some s') × ((n : String) → Known n → IsKnown s' n)
unfolding serve_all
serve_all_total Known [] s known asks = (s, refl, known)
serve_all_total Known ((now, msg) ∷ msgs) s known asks =
    let (r, e, known') = dispatch_total Known now s msg known asks.0 in
    let (s', e', known'') = serve_all_total Known msgs r.state known' asks.1 in
    (s', ap (λ d. serve_all msgs (next_state d)) e ∙ e', known'')

serve_all-none : (msgs : List (ℤ × StateRequestMsg)) → serve_all msgs none ≡ none
unfolding serve_all
serve_all-none [] = refl
serve_all-none (m ∷ msgs) = refl

unknown_node_kills :
    (msgs : List (ℤ × StateRequestMsg)) (now : ℤ) (n : String) (later : List (ℤ × StateRequestMsg))
    (s : State)
    → node_history msgs n (NodeList.get_node n s.node_list) ≡ none
    → serve_all (msgs ++ (now, StateRequestMsg.get_node n) ∷ later) (some s) ≡ none
unfolding serve_all node_history
unknown_node_kills [] now n later s e =
    ap (λ d. serve_all later (next_state d))
      ((dispatch_panics_iff now s (StateRequestMsg.get_node n)).1 e)
    ∙ serve_all-none later
unknown_node_kills ((t, msg) ∷ msgs) now n later s e =
    of_round (dispatch t s msg) (dispatch-Refines t s msg)
      (λ s' known. unknown_node_kills msgs now n later s' known)
  where
    rest : List (ℤ × StateRequestMsg)
    rest = msgs ++ (now, StateRequestMsg.get_node n) ∷ later

    after : State → Option Node
    after s' = node_history msgs n (NodeList.get_node n s'.node_list)

    of_round :
        (d : Option Served)
        → Refines t s msg d
        → ((s' : State) → after s' ≡ none → serve_all rest (some s') ≡ none)
        → serve_all rest (next_state d) ≡ none
    of_round none refines step = serve_all-none rest
    of_round (some r) refines step = step r.state (ap (node_history msgs n) (refines.1 n) ∙ e)

-- Among the messages is a request for a node that the history of its name up to there does not
-- leave.
abbrev pub AsksTooMuch : State → List (ℤ × StateRequestMsg) → Type 0
AsksTooMuch s msgs =
    (before : List (ℤ × StateRequestMsg)) × (now : ℤ) × (n : String) × (later : List
      (ℤ × StateRequestMsg))
    × (msgs ≡ before ++ (now, StateRequestMsg.get_node n) ∷ later)
    × (node_history before n (NodeList.get_node n s.node_list) ≡ none)

AsksTooMuch-first :
    (now : ℤ) (s : State) (msg : StateRequestMsg) (msgs : List (ℤ × StateRequestMsg))
    → AsksUnknownNode s msg
    → AsksTooMuch s ((now, msg) ∷ msgs)
unfolding node_history
AsksTooMuch-first now s (StateRequestMsg.get_node n) msgs e = ([], now, n, msgs, refl, e)
AsksTooMuch-first now s _ msgs h = absurd h

death-AsksTooMuch :
    (msgs : List (ℤ × StateRequestMsg)) (s : State)
    → serve_all msgs (some s) ≡ none
    → AsksTooMuch s msgs
unfolding serve_all node_history
death-AsksTooMuch [] s e = cc
death-AsksTooMuch ((now, msg) ∷ msgs) s dead = elim (Option-cases (dispatch now s msg)) [
  | inl e ↦ AsksTooMuch-first now s msg msgs ((dispatch_panics_iff now s msg).0 e)
  | inr (r, e) ↦
      let refines : Refines now s msg (some r) =
        subst (λ d. Refines now s msg d) e (dispatch-Refines now s msg) in
      let (before, t, n, later, split, gone) =
        death-AsksTooMuch msgs r.state (sym (ap (λ d. serve_all msgs (next_state d)) e) ∙ dead) in
      (
        (now, msg) ∷ before,
        t,
        n,
        later,
        ap (λ l. (now, msg) ∷ l) split,
        sym (ap (node_history before n) (refines.1 n)) ∙ gone,
      )
]

-- From any state, serving any messages makes the serving thread panic exactly if among them is a
-- request for a node by a name under which the history of that name up to there, the messages
-- before the request on what stood under it at first, leaves no node.
pub serve_all_panics_iff :
    (msgs : List (ℤ × StateRequestMsg)) (s : State)
    → (serve_all msgs (some s) ≡ none) ↔ AsksTooMuch s msgs
serve_all_panics_iff msgs s = (
  death-AsksTooMuch msgs s,
  λ (before, now, n, later, split, gone).
      ap (λ l. serve_all l (some s)) split ∙ unknown_node_kills before now n later s gone,
)
