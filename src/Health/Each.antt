-- ===== src/Health/Each.antt =====
-- A service with the placement singleton_each_node after the first round of
-- src/health/run_health_checker.rs.
use torc_scheduler.Client.Quiet.{Runs, flat_map}
use torc_scheduler.Client.StateManager.{StateManager, TaskConfig}
use torc_scheduler.Config.{YamlLibrary}
use torc_scheduler.Config.Settings.{DnsEntry}
use torc_scheduler.Health.{for_node, run_first_round}
use torc_scheduler.Health.Kept.{kept, configured, is_down, registered}
use torc_scheduler.NodeList
use torc_scheduler.NodeList.View as NodeView
use torc_scheduler.Prelude.{
  ◌≡◌, refl, sym, ap, subst, ◌∙◌, inl, inr, false, Option, some, List, [], ◌∷◌, map, arith, Member,
  member-append_left, member-append_right, concat, eq_refl, ◌==◌, Bool-cases,
}
use torc_scheduler.Prelude.Int.{ℤ}
use torc_scheduler.Records.{Task, Node, Sla, same_state}
use torc_scheduler.Server.{State}
use torc_scheduler.Server.Validity.{IsValid}
use torc_scheduler.TaskList
use torc_scheduler.Health.Prepared.{expanded_by, expanded, IsChecked, run_first_round_lem}

member-map :
    {A B : Type 0} (f : A → B) (a : A) (xs : List A) → Member a xs → Member (f a) (map f xs)
member-map f a [] h = absurd h
member-map f a (x ∷ xs) (inl e) = inl (ap f e)
member-map f a (x ∷ xs) (inr h) = inr (member-map f a xs h)

member-flat_map :
    {A B : Type 0} (f : A → List B) (a : A) (b : B) (xs : List A)
    → Member a xs
    → Member b (f a)
    → Member b (flat_map f xs)
member-flat_map f a b [] h k = absurd h
member-flat_map f a b (x ∷ xs) (inl e) k =
    member-append_left b (f x) (flat_map f xs) (subst (λ y. Member b (f y)) e k)
member-flat_map f a b (x ∷ xs) (inr h) k =
    member-append_right b (f x) (flat_map f xs) (member-flat_map f a b xs h k)

configured_member :
    (t : TaskConfig) (tasks : List TaskConfig)
    → Member t tasks
    → (c : TaskConfig) × (configured t.name tasks ≡ some c)
unfolding configured
configured_member t [] h = absurd h
configured_member t (u ∷ tasks) (inl e) =
    (u, ground (arith, eq_refl u.name, ap (λ (v : TaskConfig). u.name == v.name) e))
configured_member t (u ∷ tasks) (inr h) = elim (Bool-cases (u.name == t.name)) [
  | inl e ↦ (u, rw e refl)
  | inr e ↦ let (c, found) = configured_member t tasks h in (c, rw e found)
]

kept-up :
    (sm : StateManager) (now : ℤ) (t : TaskConfig) (tasks : List TaskConfig) (o : Option Task)
    → Member t tasks
    → is_down (kept sm now tasks t.name o) ≡ false
unfolding same_state
kept-up sm now t tasks o h = elim (Bool-cases (is_down o)) [
  | inl down ↦ let (c, found) = configured_member t tasks h in rw (down, found) refl
  | inr up ↦ rw up up
]

-- From a valid state and in a quiet environment, with a configuration that can be read: after the
-- first round of the health checker, every configured service with the placement
-- singleton_each_node has a task that is not down on every node of the list.
pub each_node_is_served :
    (lib : YamlLibrary) (sm : StateManager) (now : ℤ) (config : lib.Yaml) (cs : List TaskConfig)
    (entries : List DnsEntry) (s : State) (c : TaskConfig) (v : Node)
    → IsChecked lib sm now config cs entries
    → IsValid s
    → Member c cs
    → c.sla ≡ Sla.singleton_each_node
    → NodeList.get_node v.name s.node_list ≡ some v
    → (s' : State) × Runs now (run_first_round lib sm config) s tt (registered sm now entries) s'
      × (is_down (TaskList.get_task (concat (c.name ∷ "-" ∷ v.name ∷ [])) s'.task_list) ≡ false)
each_node_is_served lib sm now config cs entries s c v r valid listed each stored =
    let nodes = NodeList.get_nodes s.node_list in
    let (s', runs, shown, _) = run_first_round_lem lib sm now config cs entries r s in
    let task = for_node c v in
    let of_node : Member task (map (for_node c) nodes) =
      member-map (for_node c) v nodes
        ((NodeView.member-get_nodes s.node_list valid.nodes v).1 stored) in
    let of_service : Member task (expanded_by nodes c c.sla) =
      subst (λ k. Member task (expanded_by nodes c k)) (sym each) of_node in
    let of_all : Member task (expanded nodes cs) =
      member-flat_map (λ (d : TaskConfig). expanded_by nodes d d.sla) c task cs listed of_service in
    (
      s',
      runs,
      ap is_down (shown task.name)
          ∙ kept-up sm now task (expanded nodes cs) (TaskList.get_task task.name s.task_list)
              of_all,
    )
