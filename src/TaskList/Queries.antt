-- ===== src/TaskList/Queries.antt =====
-- The two searches of src/state/task_list.rs, against the abstract view.
use torc_scheduler.HashMap.{values}
use torc_scheduler.HashMap.Keyed.{member-values}
use torc_scheduler.Prelude.{
  String, ◌≡◌, refl, ◌↔◌, ◌⊎◌, inl, inr, true, false, some, List, [], ◌∷◌, arith, Member,
  member-filter_by, Bool-cases,
}
use torc_scheduler.Records.{Task, TaskState, same_state}
use torc_scheduler.TaskList.{
  TaskList, get_task, get_tasks_with_state, get_task_name_by_id, first_name, id_matches,
}
use torc_scheduler.TaskList.View.{IsValid, task_name}

pub same_state_iff : (a b : TaskState) → (same_state a b ≡ true) ↔ (a ≡ b)
unfolding same_state
same_state_iff a b = ground arith

-- In a valid list a task is listed for a state exactly if it is stored, under its name, in that
-- state.
pub member-get_tasks_with_state :
    (t : Task) (s : TaskState) (l : TaskList)
    → IsValid l
    → Member t (get_tasks_with_state s l) ↔ ((get_task t.name l ≡ some t) × (t.state ≡ s))
unfolding get_tasks_with_state get_task
member-get_tasks_with_state t s l h =
    let passes = member-filter_by t (λ (u : Task). same_state u.state s) (values l) in
    let stored = member-values task_name t l h in
    (
      λ m. (stored.0 (passes.0 m).0, (same_state_iff t.state s).0 (passes.0 m).1),
      λ p. passes.1 (stored.1 p.0, (same_state_iff t.state s).1 p.1),
    )

-- What the search over the values returns: the name of a match, or "" if there is none.
abbrev pub Found : String → TaskList → String → Type 0
Found id_prefix l result =
    ((t : Task) × (get_task t.name l ≡ some t)
      × (id_matches id_prefix t ≡ true)
      × (result ≡ t.name))
    ⊎ ((result ≡ "") × ((t : Task) → get_task t.name l ≡ some t → id_matches id_prefix t ≡ false))

first_name_cases :
    (p : String) (ts : List Task)
    → ((t : Task) × Member t ts × (id_matches p t ≡ true) × (first_name p ts ≡ t.name))
      ⊎ ((first_name p ts ≡ "") × ((t : Task) → Member t ts → id_matches p t ≡ false))
unfolding first_name
first_name_cases p [] = inr (refl, λ t m. absurd m)
first_name_cases p (u ∷ ts) = elim (Bool-cases (id_matches p u)) [
  | inl e ↦ inl (u, inl refl, e, ground arith)
  | inr e ↦ elim (first_name_cases p ts) [
    | inl (t, m, q, r) ↦ inl (t, inr m, q, ground arith)
    | inr (r, none_matches) ↦
        inr (
          ground arith,
          λ t m. elim m [ inl same ↦ ground arith | inr later ↦ none_matches t later ],
        )
  ]
]

-- In a valid list the search by id returns the name of a stored task whose id is not empty and
-- begins with the prefix, and returns "" only if no stored task is such.
pub get_task_name_by_id-Found :
    (id_prefix : String) (l : TaskList)
    → IsValid l
    → Found id_prefix l (get_task_name_by_id id_prefix l)
unfolding get_task_name_by_id get_task
get_task_name_by_id-Found p l h = elim (first_name_cases p (values l)) [
  | inl (t, m, q, r) ↦ inl (t, (member-values task_name t l h).0 m, q, r)
  | inr (r, none_matches) ↦ inr (r, λ t e. none_matches t ((member-values task_name t l h).1 e))
]
