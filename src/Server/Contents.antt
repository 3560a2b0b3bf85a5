-- ===== src/Server/Contents.antt =====
-- What the serving thread of src/state/state.rs holds, without the order in which its maps iterate.
use mathlib.Core.Quot
use mathlib.Core.Quot.{Quot, Quot-set}
use torc_scheduler.NodeList
use torc_scheduler.Prelude.{
  String, ◌≡◌, refl, sym, ap, ◌∙◌, false, Option, none, some, List, [], ◌∷◌, arith, inl, inr,
  Bool-cases, ◌==◌, eq_iff,
}
use torc_scheduler.Prelude.Int.{ℤ}
use torc_scheduler.Records.{Task, Node}
use torc_scheduler.Server.{State, StateRequestMsg}
use torc_scheduler.Server.Panics.{AsksOnly, serve_all_total}
use torc_scheduler.Server.Refinement.{
  Shows, task_after, node_after, task_history, node_history, serve_all-Shows,
}
use torc_scheduler.Server.Serve.{serve_all}
use torc_scheduler.Server.Settings.{SameSettings, serve_all-SameSettings}
use torc_scheduler.Server.Validity.{IsValidIfAlive, serve_all-IsValid}
use torc_scheduler.TaskList
use torc_scheduler.Server.Alike.{Alike, serve_all-Alike}

-- A thread that has panicked, or one whose lists hold each entry under its own name, once.
abbrev pub Held : Type 0
Held = (o : Option State) × IsValidIfAlive o

abbrev pub SameContents : Held → Held → Type 0
SameContents x y = Alike x.0 y.0

abbrev pub Contents : Type 0
Contents = Quot SameContents

abbrev pub serve_held : List (ℤ × StateRequestMsg) → Held → Held
serve_held msgs x = (serve_all msgs x.0, serve_all-IsValid msgs x.0 x.1)

-- Serving messages, on contents.
pub serve : List (ℤ × StateRequestMsg) → Contents → Contents
serve msgs =
    Quot.lift Quot-set (λ x. Quot.mk (serve_held msgs x))
      (λ x y h. Quot.sound (serve_all-Alike msgs x.0 y.0 h))

-- The name of the task that a message changes.
abbrev pub task_updated : StateRequestMsg → Option String
task_updated (StateRequestMsg.update_task_state n st) = some n
task_updated (StateRequestMsg.update_task_node_name n node) = some n
task_updated (StateRequestMsg.update_task_info n id ip slave) = some n
task_updated (StateRequestMsg.update_task_last_update n) = some n
task_updated (StateRequestMsg.start_task task) = some task.name
task_updated (StateRequestMsg.restart_task n) = some n
task_updated (StateRequestMsg.remove_task n) = some n
task_updated _ = none

-- A message about another task leaves this one, and every node.
task_after-other :
    (now : ℤ) (m : StateRequestMsg) (a n : String) (o : Option Task)
    → task_updated m ≡ some a
    → (a == n) ≡ false
    → task_after now m n o ≡ o
task_after-other now m a n o about other = go m about
  where
    go : (m : StateRequestMsg) → task_updated m ≡ some a → task_after now m n o ≡ o
    go m e = ground arith

node_after-task :
    (now : ℤ) (m : StateRequestMsg) (a n : String) (o : Option Node)
    → task_updated m ≡ some a
    → node_after now m n o ≡ o
node_after-task now m a n o about = ground arith

asks_no_node : (m : StateRequestMsg) (a : String) → task_updated m ≡ some a → AsksOnly (λ n. ⊥) m
asks_no_node (StateRequestMsg.get_node n) a e = cc
asks_no_node _ a e = tt

abbrev task_in : State → String → Option Task
task_in s n = TaskList.get_task n s.task_list

abbrev node_in : State → String → Option Node
node_in s n = NodeList.get_node n s.node_list

Shows-Alike :
    {tasks tasks' : String → Option Task} {nodes nodes' : String → Option Node} (start : State)
    (o o' : Option State) (s s' : State)
    → o ≡ some s
    → o' ≡ some s'
    → SameSettings start o
    → SameSettings start o'
    → Shows tasks nodes o
    → Shows tasks' nodes' o'
    → ((n : String) → tasks n ≡ tasks' n)
    → ((n : String) → nodes n ≡ nodes' n)
    → Alike o o'
Shows-Alike start none o' s s' e e' k k' h h' p q = cc
Shows-Alike start (some v) none s s' e e' k k' h h' p q = cc
Shows-Alike start (some v) (some v') s s' e e' k k' h h' p q = (
  k.0 ∙ sym k'.0,
  k.1 ∙ sym k'.1,
  k.2 ∙ sym k'.2,
  λ n. h.0 n ∙ p n ∙ sym (h'.0 n),
  λ n. h.1 n ∙ q n ∙ sym (h'.1 n),
)

module _ (now now' : ℤ) (m m' : StateRequestMsg) (a b : String) (about : task_updated m ≡ some a)
    (about' : task_updated m' ≡ some b) (apart : (a == b) ≡ false) where
  -- One after the other, in either order, at one name.
  task_after-commutes :
      (n : String) (o : Option Task)
      → task_after now' m' n (task_after now m n o) ≡ task_after now m n (task_after now' m' n o)
  task_after-commutes n o = elim (Bool-cases (a == n)) [
    | inl y ↦
        let other : (b == n) ≡ false = ground (arith, eq_iff a n, eq_iff b n, eq_iff a b) in
        task_after-other now' m' b n (task_after now m n o) about' other
        ∙ sym (ap (task_after now m n) (task_after-other now' m' b n o about' other))
    | inr y ↦
        ap (task_after now' m' n) (task_after-other now m a n o about y)
        ∙ sym (task_after-other now m a n (task_after now' m' n o) about y)
  ]

  node_after-commutes :
      (n : String) (o : Option Node)
      → node_after now' m' n (node_after now m n o) ≡ node_after now m n (node_after now' m' n o)
  node_after-commutes n o =
      node_after-task now' m' b n (node_after now m n o) about'
      ∙ sym (ap (node_after now m n) (node_after-task now' m' b n o about'))

  abbrev first_then : List (ℤ × StateRequestMsg)
  first_then = (now, m) ∷ (now', m') ∷ []

  abbrev then_first : List (ℤ × StateRequestMsg)
  then_first = (now', m') ∷ (now, m) ∷ []

  orders-Alike : (s : Option State) → Alike (serve_all first_then s) (serve_all then_first s)
  unfolding serve_all task_history node_history
  orders-Alike none = tt
  orders-Alike (some s) =
      let asks = asks_no_node m a about in
      let asks' = asks_no_node m' b about' in
      let (s1, e1, _) =
        serve_all_total (λ n. ⊥) first_then s (λ n h. absurd h) (asks, (asks', tt)) in
      let (s2, e2, _) =
        serve_all_total (λ n. ⊥) then_first s (λ n h. absurd h) (asks', (asks, tt)) in
      Shows-Alike s (serve_all first_then (some s)) (serve_all then_first (some s)) s1 s2 e1 e2
        (serve_all-SameSettings first_then s) (serve_all-SameSettings then_first s)
        (serve_all-Shows first_then (some s) (task_in s) (node_in s) (λ n. refl, λ n. refl))
        (serve_all-Shows then_first (some s) (task_in s) (node_in s) (λ n. refl, λ n. refl))
        (λ n. task_after-commutes n (task_in s n)) (λ n. node_after-commutes n (node_in s n))

  -- Two messages that change tasks of different names may be served in either order, each with its
  -- own time: what the serving thread holds afterwards is the same, up to the order in which the
  -- maps of a valid state iterate; its flag, its address of the master and its name are compared
  -- too, as is whether it has panicked.
  pub messages_commute : (c : Contents) → serve first_then c ≡ serve then_first c
  unfolding serve
  messages_commute =
      Quot.ind (λ c. Quot-set (serve first_then c) (serve then_first c))
        (λ x. Quot.sound (orders-Alike x.0))
