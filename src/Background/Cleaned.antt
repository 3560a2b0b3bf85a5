-- ===== src/Background/Cleaned.antt =====
-- Loops that update the state at some of the names they meet, as the three loops of the cleaning
-- thread in src/state/state.rs do: what such a loop makes of one name.
use torc_scheduler.Client.Quiet.{apply_each}
use torc_scheduler.NodeList
use torc_scheduler.NodeList.View as NodeView
use torc_scheduler.Prelude.{
  String, ◌≡◌, refl, sym, ap, subst, ◌∙◌, Bool, true, false, ◌&&◌, ◌||◌, inl, inr, Option, none,
  some, List, [], ◌∷◌, arith, eq_iff, Member, ◌==◌, if◌then◌else◌, Bool-cases,
}
use torc_scheduler.Records.{Task, TaskState, Node, same_state}
use torc_scheduler.Server.{State}
use torc_scheduler.TaskList
use torc_scheduler.TaskList.{TaskList}
use torc_scheduler.TaskList.Queries.{member-get_tasks_with_state, same_state_iff}
use torc_scheduler.TaskList.View as TaskView

abbrev pub any : {A : Type 0} → (A → Bool) → List A → Bool
any p [] = false
any p (x ∷ xs) = p x || any p xs

any_member :
    {A : Type 0} (p : A → Bool) (xs : List A)
    → any p xs ≡ true
    → (x : A) × Member x xs × (p x ≡ true)
any_member p [] h = cc
any_member p (x ∷ xs) h = elim (Bool-cases (p x)) [
  | inl e ↦ (x, inl refl, e)
  | inr e ↦ let (y, m, q) = any_member p xs (ground arith) in (y, inr m, q)
]

member_any :
    {A : Type 0} (p : A → Bool) (x : A) (xs : List A) → Member x xs → p x ≡ true → any p xs ≡ true
member_any p x [] m e = absurd m
member_any p x (y ∷ xs) (inl same) e = ground arith
member_any p x (y ∷ xs) (inr m) e = ground (arith, member_any p x xs m e)

-- `next` at the names of the elements that pass.
abbrev pub at_some :
    {A : Type 0} → (A → Bool) → (A → String) → (String → State → State) → A → State → State
at_some p name next x s = if p x then next (name x) s else s

module _ {A X : Type 0} (p : A → Bool) (name : A → String) (next : String → State → State)
    (view : State → Option X) (n : String) (change : Option X → Option X)
    (step : (m : String) (s : State)
      → view (next m s) ≡ (if m == n then change (view s) else view s))
    (idem : (o : Option X) → change (change o) ≡ change o) where
  -- What stands under `n` is changed, once, if some element that passes has that name.
  pub apply_each-at_some :
      (xs : List A) (s : State)
      → view (apply_each (at_some p name next) xs s)
        ≡ (if any (λ x. p x && name x == n) xs then change (view s) else view s)
  apply_each-at_some [] s = refl
  apply_each-at_some (x ∷ xs) s = ground (
    arith,
    apply_each-at_some xs (next (name x) s),
    apply_each-at_some xs s,
    step (name x) s,
    idem (view s),
  )

-- A loop keeps what each of its rounds keeps.
pub apply_each_keeps :
    {A : Type 0} (P : State → Type 0) (next : A → State → State)
    → ((x : A) (s : State) → P s → P (next x s))
    → (xs : List A) (s : State) → P s
    → P (apply_each next xs s)
apply_each_keeps P next keep [] s h = h
apply_each_keeps P next keep (x ∷ xs) s h = apply_each_keeps P next keep xs (next x s) (keep x s h)

-- Whether the task, or the node, that stands under a name passes a test.
abbrev pub holds : {X : Type 0} → (X → Bool) → Option X → Bool
holds p none = false
holds p (some x) = p x

and_left : (a b : Bool) → (a && b) ≡ true → a ≡ true
and_left a b h = ground arith

and_right : (a b : Bool) → (a && b) ≡ true → b ≡ true
and_right a b h = ground arith

and_true : (a b : Bool) → a ≡ true → b ≡ true → (a && b) ≡ true
and_true a b h k = ground arith

eq_of_iff : (a b : Bool) → (a ≡ true → b ≡ true) → (b ≡ true → a ≡ true) → a ≡ b
eq_of_iff true b f g = sym (f refl)
eq_of_iff false true f g = g refl
eq_of_iff false false f g = refl

-- Among the tasks listed for a state, one of name `n` passes exactly if the task that is stored
-- under `n` is in that state and passes.
pub any-get_tasks_with_state :
    (p : Task → Bool) (st : TaskState) (l : TaskList) (n : String)
    → TaskView.IsValid l
    → any (λ (t : Task). p t && t.name == n) (TaskList.get_tasks_with_state st l)
      ≡ holds (λ t. same_state t.state st && p t) (TaskList.get_task n l)
any-get_tasks_with_state p st l n h = eq_of_iff _ _ found stored
  where
    found :
        any (λ (t : Task). p t && t.name == n) (TaskList.get_tasks_with_state st l) ≡ true
        → holds (λ t. same_state t.state st && p t) (TaskList.get_task n l) ≡ true
    found e =
        let (t, m, q) = any_member _ _ e in
        let at_name = (member-get_tasks_with_state t st l h).0 m in
        let named : t.name ≡ n = (eq_iff t.name n).0 (and_right (p t) (t.name == n) q) in
        let at_n : TaskList.get_task n l ≡ some t =
          subst (λ k. TaskList.get_task k l ≡ some t) named at_name.0 in
        ap (holds (λ u. same_state u.state st && p u)) at_n
        ∙ and_true _ _ ((same_state_iff t.state st).1 at_name.1) (and_left (p t) (t.name == n) q)

    from :
        (o : Option Task)
        → TaskList.get_task n l ≡ o
        → holds (λ t. same_state t.state st && p t) o ≡ true
        → any (λ (t : Task). p t && t.name == n) (TaskList.get_tasks_with_state st l) ≡ true
    from none at_n e = cc
    from (some t) at_n e =
        let named : t.name ≡ n = TaskView.get_task_name l h n t at_n in
        let at_name : TaskList.get_task t.name l ≡ some t =
          subst (λ k. TaskList.get_task k l ≡ some t) (sym named) at_n in
        let in_state : t.state ≡ st = (same_state_iff t.state st).0 (and_left _ (p t) e) in
        member_any _ t _ ((member-get_tasks_with_state t st l h).1 (at_name, in_state))
          (and_true _ _ (and_right _ (p t) e) ((eq_iff t.name n).1 named))

    stored :
        holds (λ t. same_state t.state st && p t) (TaskList.get_task n l) ≡ true
        → any (λ (t : Task). p t && t.name == n) (TaskList.get_tasks_with_state st l) ≡ true
    stored e = from (TaskList.get_task n l) refl e

-- The same for the nodes, which are listed whatever their state.
pub any-get_nodes :
    (p : Node → Bool) (l : NodeList.NodeList) (n : String)
    → NodeView.IsValid l
    → any (λ (v : Node). p v && v.name == n) (NodeList.get_nodes l)
      ≡ holds p (NodeList.get_node n l)
any-get_nodes p l n h = eq_of_iff _ _ found (from (NodeList.get_node n l) refl)
  where
    found :
        any (λ (v : Node). p v && v.name == n) (NodeList.get_nodes l) ≡ true
        → holds p (NodeList.get_node n l) ≡ true
    found e =
        let (v, m, q) = any_member _ _ e in
        let named : v.name ≡ n = (eq_iff v.name n).0 (and_right (p v) (v.name == n) q) in
        ap (holds p) (
          subst (λ k. NodeList.get_node k l ≡ some v) named ((NodeView.member-get_nodes l h v).0 m))
        ∙ and_left (p v) (v.name == n) q

    from :
        (o : Option Node)
        → NodeList.get_node n l ≡ o
        → holds p o ≡ true
        → any (λ (v : Node). p v && v.name == n) (NodeList.get_nodes l) ≡ true
    from none at_n e = cc
    from (some v) at_n e =
        let named : v.name ≡ n = NodeView.get_node_name l h n v at_n in
        member_any _ v _
          ((NodeView.member-get_nodes l h v).1
            (subst (λ k. NodeList.get_node k l ≡ some v) (sym named) at_n))
          (and_true _ _ e ((eq_iff v.name n).1 named))
