-- ===== src/NodeList/View.antt =====
-- The abstract view of src/state/node_list.rs: a partial function from names to nodes.
use mathlib.Core.Option
use torc_scheduler.HashMap.{get-insert, get-modify}
use torc_scheduler.HashMap.Keyed.{IsKeyed, insert-IsKeyed, modify-IsKeyed, get-name, member-values}
use torc_scheduler.Prelude.{String, ◌≡◌, refl, ◌↔◌, some, arith, Member, ◌==◌, if◌then◌else◌}
use torc_scheduler.Prelude.Int.{ℤ}
use torc_scheduler.Records.{Node}
use torc_scheduler.NodeList.{
  NodeList, add_new_node, is_node_active, set_node_inactive, update_node, get_node, get_nodes,
  seen_if_active, as_inactive, as_active,
}

abbrev pub node_name : Node → String
node_name n = n.name

abbrev pub IsValid : NodeList → Type 0
IsValid l = IsKeyed node_name l

module _ (l : NodeList) (n : String) where
  pub get_node-add_new_node :
      (v : Node) → get_node n (add_new_node v l) ≡ (if v.name == n then some v else get_node n l)
  unfolding get_node add_new_node
  get_node-add_new_node v = get-insert v.name n v l

  pub get_node-is_node_active :
      (now : ℤ) (m : String)
      → get_node n (is_node_active now m l).1
        ≡ (if m == n then Option.map (seen_if_active now) (get_node n l) else get_node n l)
  unfolding get_node is_node_active
  get_node-is_node_active now m = get-modify m n (seen_if_active now) l

  pub get_node-set_node_inactive :
      (m : String)
      → get_node n (set_node_inactive m l)
        ≡ (if m == n then Option.map as_inactive (get_node n l) else get_node n l)
  unfolding get_node set_node_inactive
  get_node-set_node_inactive m = get-modify m n as_inactive l

  pub get_node-update_node :
      (m type function slave : String)
      → get_node n (update_node m type function slave l) ≡ (
          if m == n
          then Option.map (as_active type function slave) (get_node n l)
          else get_node n l)
  unfolding get_node update_node
  get_node-update_node m type function slave = get-modify m n (as_active type function slave) l

module _ (l : NodeList) (h : IsValid l) where
  -- The nodes that are listed are those that a lookup of their names finds.
  pub member-get_nodes : (v : Node) → Member v (get_nodes l) ↔ (get_node v.name l ≡ some v)
  unfolding get_nodes get_node
  member-get_nodes v = member-values node_name v l h

  pub get_node_name : (n : String) (v : Node) → get_node n l ≡ some v → v.name ≡ n
  unfolding get_node
  get_node_name n v e = get-name node_name n v l h e

  pub add_new_node-IsValid : (v : Node) → IsValid (add_new_node v l)
  unfolding add_new_node
  add_new_node-IsValid v = insert-IsKeyed node_name v l h

  pub is_node_active-IsValid : (now : ℤ) (n : String) → IsValid (is_node_active now n l).1
  unfolding is_node_active
  is_node_active-IsValid now n =
      modify-IsKeyed node_name n (seen_if_active now) l (λ v. ground arith) h

  pub set_node_inactive-IsValid : (n : String) → IsValid (set_node_inactive n l)
  unfolding set_node_inactive
  set_node_inactive-IsValid n = modify-IsKeyed node_name n as_inactive l (λ v. refl) h

  pub update_node-IsValid :
      (n type function slave : String) → IsValid (update_node n type function slave l)
  unfolding update_node
  update_node-IsValid n type function slave =
      modify-IsKeyed node_name n (as_active type function slave) l (λ v. refl) h
