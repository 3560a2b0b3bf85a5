-- ===== src/TaskList/View.antt =====
-- The abstract view of src/state/task_list.rs: a partial function from names to tasks, which each
-- method updates at one name. `IsValid` is the representation invariant.
use mathlib.Core.Option
use torc_scheduler.HashMap.{get-insert, get-remove, get-modify}
use torc_scheduler.HashMap.Keyed.{IsKeyed, insert-IsKeyed, remove-IsKeyed, modify-IsKeyed, get-name}
use torc_scheduler.Prelude.{String, ◌≡◌, refl, none, some, ◌==◌, if◌then◌else◌}
use torc_scheduler.Prelude.Int.{ℤ}
use torc_scheduler.Records.{Task, TaskState}
use torc_scheduler.TaskList.{
  TaskList, add_new_task, remove_task_by_name, set_task_state, set_task_node_name,
  update_task_last_update, set_task_info, get_task, get_task_state, with_state, with_node_name,
  with_last_update, with_info,
}

abbrev pub task_name : Task → String
task_name t = t.name

-- Every task stands under its own name, once.
abbrev pub IsValid : TaskList → Type 0
IsValid l = IsKeyed task_name l

module _ (l : TaskList) (n : String) where
  pub get_task-add_new_task :
      (t : Task) → get_task n (add_new_task t l) ≡ (if t.name == n then some t else get_task n l)
  unfolding get_task add_new_task
  get_task-add_new_task t = get-insert t.name n t l

  pub get_task-remove_task_by_name :
      (m : String) → get_task n (remove_task_by_name m l) ≡ (if m == n then none else get_task n l)
  unfolding get_task remove_task_by_name
  get_task-remove_task_by_name m = get-remove m n l

  pub get_task-set_task_state :
      (m : String) (s : TaskState)
      → get_task n (set_task_state m s l)
        ≡ (if m == n then Option.map (with_state s) (get_task n l) else get_task n l)
  unfolding get_task set_task_state
  get_task-set_task_state m s = get-modify m n (with_state s) l

  pub get_task-set_task_node_name :
      (m node : String)
      → get_task n (set_task_node_name m node l)
        ≡ (if m == n then Option.map (with_node_name node) (get_task n l) else get_task n l)
  unfolding get_task set_task_node_name
  get_task-set_task_node_name m node = get-modify m n (with_node_name node) l

  pub get_task-update_task_last_update :
      (now : ℤ) (m : String)
      → get_task n (update_task_last_update now m l)
        ≡ (if m == n then Option.map (with_last_update now) (get_task n l) else get_task n l)
  unfolding get_task update_task_last_update
  get_task-update_task_last_update now m = get-modify m n (with_last_update now) l

  pub get_task-set_task_info :
      (m id ip slave : String)
      → get_task n (set_task_info m id ip slave l)
        ≡ (if m == n then Option.map (with_info id ip slave) (get_task n l) else get_task n l)
  unfolding get_task set_task_info
  get_task-set_task_info m id ip slave = get-modify m n (with_info id ip slave) l

  -- The state that is reported is that of the task, and `NotRunning` if there is none.
  pub get_task_state-eq :
      get_task_state n l ≡ elim (get_task n l) [ some t ↦ t.state | none ↦ TaskState.not_running ]
  unfolding get_task get_task_state
  get_task_state-eq = refl

pub ruleset view_laws = (
  get_task-add_new_task, get_task-remove_task_by_name, get_task-set_task_state,
  get_task-set_task_node_name, get_task-update_task_last_update, get_task-set_task_info,
)

module _ (l : TaskList) (h : IsValid l) where
  pub get_task_name : (n : String) (t : Task) → get_task n l ≡ some t → t.name ≡ n
  unfolding get_task
  get_task_name n t e = get-name task_name n t l h e

  pub add_new_task-IsValid : (t : Task) → IsValid (add_new_task t l)
  unfolding add_new_task
  add_new_task-IsValid t = insert-IsKeyed task_name t l h

  pub remove_task_by_name-IsValid : (n : String) → IsValid (remove_task_by_name n l)
  unfolding remove_task_by_name
  remove_task_by_name-IsValid n = remove-IsKeyed task_name n l h

  pub set_task_state-IsValid : (n : String) (s : TaskState) → IsValid (set_task_state n s l)
  unfolding set_task_state
  set_task_state-IsValid n s = modify-IsKeyed task_name n (with_state s) l (λ t. refl) h

  pub set_task_node_name-IsValid : (n node : String) → IsValid (set_task_node_name n node l)
  unfolding set_task_node_name
  set_task_node_name-IsValid n node =
      modify-IsKeyed task_name n (with_node_name node) l (λ t. refl) h

  pub update_task_last_update-IsValid :
      (now : ℤ) (n : String) → IsValid (update_task_last_update now n l)
  unfolding update_task_last_update
  update_task_last_update-IsValid now n =
      modify-IsKeyed task_name n (with_last_update now) l (λ t. refl) h

  pub set_task_info-IsValid : (n id ip slave : String) → IsValid (set_task_info n id ip slave l)
  unfolding set_task_info
  set_task_info-IsValid n id ip slave =
      modify-IsKeyed task_name n (with_info id ip slave) l (λ t. refl) h
