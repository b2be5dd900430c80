-- ===== src/Admit/Ids.antt =====
-- The primary key of the task table, and what the lookup by key finds.
use backplaned_agents.Prelude.{
  ◌==◌, nat_eq, list_eq, option_eq, Text, text_iff, ==_self, ◌≡◌, refl, sym, ap, ◌∙◌, inl, inr,
  true, false, none, some, List, [], ◌∷◌, ◌++◌, map, arith, Bool-cases, some_inj,
}
use mathlib.Core.Path.{subst}
use backplaned_agents.State.{TaskRow, Db, find_task}
use backplaned_agents.Admit.Queries.{NewTask, find_idempotent, has_key}
use backplaned_agents.Admit.Frozen.{frozen, none-frozen, unfrozen_none, none_not_some}
use backplaned_agents.Admit.Created.{IsCreated, new_found}

-- no id occurs twice
abbrev pub HasUniqueIds : List TaskRow → Type 0
HasUniqueIds [] = Unit
HasUniqueIds (row ∷ rows) = (find_task row.task_id rows ≡ none) × HasUniqueIds rows

other : (a b : Text) → (b == a) ≡ false → (a == b) ≡ false
other a b n = ground (arith, text_iff a b, text_iff b a)

ids_append :
    (rows : List TaskRow) (new : TaskRow)
    → find_task new.task_id rows ≡ none
    → HasUniqueIds rows
    → HasUniqueIds (rows ++ new ∷ [])
unfolding find_task
ids_append [] new fresh u = (refl, tt)
ids_append (row ∷ rows) new fresh u = elim (Bool-cases (row.task_id == new.task_id)) [
  | inl y ↦ absurd (ground (arith, rw y at fresh))
  | inr n ↦ (
    new_found row.task_id rows new u.0 ∙ rw (other new.task_id row.task_id n) refl,
    ids_append rows new (rw n at fresh) u.1,
  )
]

pub created_ids :
    {db db' : Db} {id : Text} {t : NewTask} {new : TaskRow}
    → IsCreated db id t db' new
    → HasUniqueIds db.tasks
    → HasUniqueIds db'.tasks
created_ids {db} made u =
    subst (λ d. HasUniqueIds d.tasks) (sym made.appended) (ids_append db.tasks _ made.fresh u)

ids_frozen : (rows : List TaskRow) → HasUniqueIds rows → HasUniqueIds (map frozen rows)
ids_frozen [] u = tt
ids_frozen (row ∷ rows) u = (none-frozen row.task_id rows u.0, ids_frozen rows u.1)

ids_unfrozen : (rows : List TaskRow) → HasUniqueIds (map frozen rows) → HasUniqueIds rows
ids_unfrozen [] u = tt
ids_unfrozen (row ∷ rows) u = (unfrozen_none row.task_id rows u.0, ids_unfrozen rows u.1)

pub same_ids :
    (rows rows' : List TaskRow)
    → map frozen rows' ≡ map frozen rows
    → HasUniqueIds rows
    → HasUniqueIds rows'
same_ids rows rows' same u = ids_unfrozen rows' (subst HasUniqueIds (sym same) (ids_frozen rows u))

-- the row that a key finds is the row of its id, and has the key
pub found_has_key :
    (caller user key : Text) (rows : List TaskRow) (row : TaskRow)
    → HasUniqueIds rows
    → find_idempotent caller user key rows ≡ some row
    → (find_task row.task_id rows ≡ some row) × (has_key caller user key row ≡ true)
unfolding find_idempotent find_task
found_has_key caller user key [] row u h = absurd (ground (arith, h))
found_has_key caller user key (r ∷ rows) row u h = elim (Bool-cases (has_key caller user key r)) [
  | inl y ↦
      subst (λ x. (find_task x.task_id (r ∷ rows) ≡ some x) × (has_key caller user key x ≡ true))
        (some_inj (rw y at h)) (rw (==_self r.task_id) refl, y)
  | inr n ↦
      let (found, k) = found_has_key caller user key rows row u.1 (rw n at h) in
      elim (Bool-cases (r.task_id == row.task_id)) [
        | inl y ↦ absurd (
            none_not_some u.0
              (ap (λ t. find_task t rows) ((text_iff r.task_id row.task_id).0 y) ∙ found))
        | inr m ↦ (rw m found, k)
      ]
]
