-- ===== src/NodeList.antt =====
-- src/state/node_list.rs, method by method. The clock is the argument `now`.
pub mod View
use torc_scheduler.HashMap.{HashMap, get, insert, modify, values}
use torc_scheduler.Prelude.{String, Bool, true, false, Option, none, some, List, [], if◌then◌else◌}
use torc_scheduler.Prelude.Int.{ℤ}
use torc_scheduler.Records.{Node}

abbrev pub NodeList : Type 0
NodeList = HashMap Node

abbrev pub new_node_list : NodeList
new_node_list = []

unfoldable pub add_new_node : Node → NodeList → NodeList
add_new_node node l = insert node.name node l

abbrev pub seen_if_active : ℤ → Node → Node
seen_if_active now node = if node.active then record node { last_seen = now } else node

-- The test also records that an active node has been seen.
unfoldable pub is_node_active : ℤ → String → NodeList → Bool × NodeList
is_node_active now node_name l = (
  elim (get node_name l) [ some node ↦ node.active | none ↦ false ],
  modify node_name (seen_if_active now) l,
)

abbrev pub as_inactive : Node → Node
as_inactive node = record node { active = false; slave_id = "" }

unfoldable pub set_node_inactive : String → NodeList → NodeList
set_node_inactive node_name l = modify node_name as_inactive l

abbrev pub as_active : String → String → String → Node → Node
as_active type function slave node = record node {
  node_type = type;
  node_function = function;
  slave_id = slave;
  active = true;
}

unfoldable pub update_node : String → String → String → String → NodeList → NodeList
update_node node_name type function slave l = modify node_name (as_active type function slave) l

unfoldable pub get_node : String → NodeList → Option Node
get_node node_name l = get node_name l

unfoldable pub get_nodes : NodeList → List Node
get_nodes l = values l
