-- ===== src/Background/Known.antt =====
-- The search by id of src/state/task_list.rs, as the syncing thread of src/state/state.rs meets it: for
-- a task that is stored.
use mathlib.Core.Option
use text.Mathlib.TextLemmas.{append-nil as text_append-nil}
use text.Mathlib.TextPositions.{starts_with-append}
use torc_scheduler.HashMap.{values, modify}
use torc_scheduler.Prelude.{
  String, ◌≡◌, refl, ap, subst, ◌∙◌, true, false, ◌&&◌, Option, none, some, [], ◌∷◌, is_empty, ◌==◌,
  if◌then◌else◌, Bool-cases, inl, inr, starts_with, not,
}
use torc_scheduler.Prelude.Int.{ℤ}
use torc_scheduler.Records.{Task}
use torc_scheduler.Server.{State}
use torc_scheduler.Server.Validity.{IsValid}
use torc_scheduler.TaskList
use torc_scheduler.TaskList.{TaskList, with_last_update}
use torc_scheduler.TaskList.Queries.{get_task_name_by_id-Found}

-- The search by id does not look at what an update of the time changes.
pub get_task_name_by_id-update :
    (id n : String) (now : ℤ) (l : TaskList)
    → TaskList.get_task_name_by_id id (TaskList.update_task_last_update now n l)
      ≡ TaskList.get_task_name_by_id id l
unfolding TaskList.get_task_name_by_id TaskList.update_task_last_update modify values
get_task_name_by_id-update id n now [] = refl
get_task_name_by_id-update id n now ((j, t) ∷ l) = elim (Bool-cases (j == n)) [
  | inl e ↦ rw e refl
  | inr e ↦ rw e (
      ap (λ (v : String). if not (is_empty t.id) && starts_with t.id id then t.name else v)
        (get_task_name_by_id-update id n now l))
]

abbrev pub with_update : ℤ → String → State → State
with_update now n s = record s { task_list = TaskList.update_task_last_update now n s.task_list }

pub with_update_idem :
    (now : ℤ) (o : Option Task)
    → Option.map (with_last_update now) (Option.map (with_last_update now) o)
      ≡ Option.map (with_last_update now) o
with_update_idem now none = refl
with_update_idem now (some t) = refl

starts_with_refl : (s : String) → starts_with s s ≡ true
starts_with_refl s =
    subst (λ u. starts_with u s ≡ true) (text_append-nil s) (starts_with-append s "")

-- The list answers a search by id with a name.
abbrev pub Knows : TaskList → Task → Type 0
Knows l t = is_empty (TaskList.get_task_name_by_id t.id l) ≡ false

-- The searches by id have the same results.
abbrev pub SameNames : TaskList → TaskList → Type 0
SameNames l k =
    (id : String) → TaskList.get_task_name_by_id id l ≡ TaskList.get_task_name_by_id id k

-- A stored task with an id is found by it, and under a name if every stored task has one.
pub Knows-own :
    (s : State)
    → IsValid s
    → ((n : String) (t : Task) → TaskList.get_task n s.task_list ≡ some t → is_empty n ≡ false)
    → (t : Task) → TaskList.get_task t.name s.task_list ≡ some t
    → is_empty t.id ≡ false
    → Knows s.task_list t
Knows-own s h names t stored has_id = elim (get_task_name_by_id-Found t.id s.task_list h.tasks) [
  | inl (u, at_u, _, same) ↦ ap is_empty same ∙ names u.name u at_u
  | inr (_, none_matches) ↦
      let matches : (not (is_empty t.id) && starts_with t.id t.id) ≡ true =
        rw (has_id, starts_with_refl) refl in
      cc (none_matches t stored)
]
