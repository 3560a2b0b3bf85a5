-- ===== src/TaskList.antt =====
-- src/state/task_list.rs, method by method. The mutex is taken inside each method and only the
-- serving thread calls them, so a method is one step on the map. The clock (`UTC::now`) is the
-- argument `now`.
pub mod View
pub mod Queries
use torc_scheduler.HashMap.{HashMap, get, insert, remove, modify, values}
use torc_scheduler.Prelude.{
  String, Bool, not, Option, none, some, List, [], ◌∷◌, ◌&&◌, starts_with, is_empty, filter_by,
  if◌then◌else◌,
}
use torc_scheduler.Prelude.Int.{ℤ}
use torc_scheduler.Records.{Task, TaskState, same_state}

abbrev pub TaskList : Type 0
TaskList = HashMap Task

abbrev pub new_task_list : TaskList
new_task_list = []

unfoldable pub add_new_task : Task → TaskList → TaskList
add_new_task task l = insert task.name task l

unfoldable pub remove_task_by_name : String → TaskList → TaskList
remove_task_by_name task_name l = remove task_name l

abbrev pub with_state : TaskState → Task → Task
with_state s task = record task { state = s }

unfoldable pub set_task_state : String → TaskState → TaskList → TaskList
set_task_state task_name s l = modify task_name (with_state s) l

abbrev pub with_node_name : String → Task → Task
with_node_name n task = record task { node_name = n }

unfoldable pub set_task_node_name : String → String → TaskList → TaskList
set_task_node_name task_name n l = modify task_name (with_node_name n) l

abbrev pub with_last_update : ℤ → Task → Task
with_last_update now task = record task { last_update = now }

unfoldable pub update_task_last_update : ℤ → String → TaskList → TaskList
update_task_last_update now task_name l = modify task_name (with_last_update now) l

-- `if new.len() > 0 { field = new }`
abbrev pub replace_nonempty : String → String → String
replace_nonempty new old = if is_empty new then old else new

abbrev pub with_info : String → String → String → Task → Task
with_info task_id task_ip slave task = record task {
  id = replace_nonempty task_id task.id;
  ip = replace_nonempty task_ip task.ip;
  slave_id = replace_nonempty slave task.slave_id;
}

unfoldable pub set_task_info : String → String → String → String → TaskList → TaskList
set_task_info task_name task_id task_ip slave l =
    modify task_name (with_info task_id task_ip slave) l

unfoldable pub get_task_state : String → TaskList → TaskState
get_task_state task_name l = elim (get task_name l) [
  | some task ↦ task.state
  | none ↦ TaskState.not_running
]

-- The first value with a non-empty id that begins with the prefix.
abbrev pub id_matches : String → Task → Bool
id_matches id_prefix task = not (is_empty task.id) && starts_with task.id id_prefix

first_name : String → List Task → String
first_name id_prefix [] = ""
first_name id_prefix (task ∷ rest) =
    if id_matches id_prefix task then task.name else first_name id_prefix rest

unfoldable pub get_task_name_by_id : String → TaskList → String
unfolding first_name
get_task_name_by_id id_prefix l = first_name id_prefix (values l)

-- `none` is the `Err` that every caller handles alike.
unfoldable pub get_task : String → TaskList → Option Task
get_task task_name l = get task_name l

unfoldable pub get_tasks_with_state : TaskState → TaskList → List Task
get_tasks_with_state s l = filter_by (λ task. same_state task.state s) (values l)
