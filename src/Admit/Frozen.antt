-- ===== src/Admit/Frozen.antt =====
-- The columns of a task that no operation changes: all but the agent that executes it, the state and
-- what it ended with. The key of a row, its tree and its depth depend on these alone.
use backplaned_agents.Prelude.{
  ◌==◌, nat_eq, list_eq, option_eq, Text, ℕ, zero, suc, ◌≡◌, refl, sym, ap, ◌∙◌, inl, inr, Option,
  none, some, List, [], ◌∷◌, map, arith, Bool-cases, Option-cases, some_inj,
}
use backplaned_agents.State.{
  TaskRow, Db, TaskState, Details, queued, find_task, update_task, set_state,
}
use backplaned_agents.State.Transitions.{Effect, refused, observed, moved, transition-Effect}
use backplaned_agents.State.Histories.{Attempt, attempt}
use backplaned_agents.Admit.Queries.{find_idempotent, has_key, ancestors}

-- a row with its other columns blank
abbrev pub frozen : TaskRow → TaskRow
frozen row = record row {
  active_agent_id = [];
  state = queued;
  status_code = none;
  output = none;
  error = none;
}

pub frozen_update :
    (id : Text) (change : TaskRow → TaskRow) (rows : List TaskRow)
    → ((row : TaskRow) → frozen (change row) ≡ frozen row)
    → map frozen (update_task id change rows) ≡ map frozen rows
unfolding update_task
frozen_update id change [] keep = refl
frozen_update id change (row ∷ rows) keep = elim (Bool-cases (row.task_id == id)) [
  | inl y ↦ rw (y, keep row, frozen_update id change rows keep) refl
  | inr n ↦ rw (n, frozen_update id change rows keep) refl
]

Effect-frozen :
    {db : Db} {id : Text} {new : TaskState} {d : Details} {db' : Db}
    → Effect db id new d db'
    → map frozen db'.tasks ≡ map frozen db.tasks
Effect-frozen refused = refl
Effect-frozen (observed row found same) = refl
Effect-frozen {db} {id} {new} {d} (moved row found may) =
    frozen_update id (set_state new d) db.tasks (λ r. refl)

pub frozen-attempt :
    (more : List Attempt) (db : Db) → map frozen (attempt db more).tasks ≡ map frozen db.tasks
unfolding attempt
frozen-attempt [] db = refl
frozen-attempt (a ∷ more) db =
    frozen-attempt more _ ∙ Effect-frozen (transition-Effect db a.task_id a.new_state a.details)

pub find-frozen :
    (id : Text) (rows : List TaskRow)
    → find_task id (map frozen rows)
      ≡ elim (find_task id rows) [ none ↦ none | some row ↦ some (frozen row) ]
unfolding find_task
find-frozen id [] = refl
find-frozen id (row ∷ rows) = elim (Bool-cases (row.task_id == id)) [
  | inl y ↦ rw y refl
  | inr n ↦ rw n (find-frozen id rows)
]

pub find_idempotent-frozen :
    (caller user key : Text) (rows : List TaskRow)
    → find_idempotent caller user key (map frozen rows)
      ≡ elim (find_idempotent caller user key rows) [ none ↦ none | some row ↦ some (frozen row) ]
unfolding find_idempotent
find_idempotent-frozen caller user key [] = refl
find_idempotent-frozen caller user key (row ∷ rows) =
    elim (Bool-cases (has_key caller user key row)) [
      | inl y ↦ rw y refl
      | inr n ↦ rw n (find_idempotent-frozen caller user key rows)
    ]

pub ancestors-frozen :
    (fuel : ℕ) (rows : List TaskRow) (user : Text) (id : Option Text)
    → ancestors fuel (map frozen rows) user id ≡ ancestors fuel rows user id
unfolding ancestors
ancestors-frozen zero rows user id = refl
ancestors-frozen (suc fuel) rows user none = refl
ancestors-frozen (suc fuel) rows user (some id) = elim (Option-cases (find_task id rows)) [
  | inl e ↦ rw (find-frozen id rows, e, ancestors) refl
  | inr (row, e) ↦
      rw (find-frozen id rows, e, ancestors)
        (rw (ancestors-frozen fuel rows user row.parent_task_id) refl)
]

found_frozen :
    (id : Text) (rows : List TaskRow) (row : TaskRow)
    → find_task id rows ≡ some row
    → find_task id (map frozen rows) ≡ some (frozen row)
found_frozen id rows row e = rw (find-frozen id rows, e) refl

pub none-frozen :
    (id : Text) (rows : List TaskRow)
    → find_task id rows ≡ none
    → find_task id (map frozen rows) ≡ none
none-frozen id rows e = rw (find-frozen id rows, e) refl

pub none_not_some : {A : Type 0} {a : A} {o : Option A} → o ≡ none → o ≡ some a → ⊥
none_not_some h k = absurd (ground (arith, sym h ∙ k))

pub unfrozen_none :
    (id : Text) (rows : List TaskRow)
    → find_task id (map frozen rows) ≡ none
    → find_task id rows ≡ none
unfrozen_none id rows h = elim (Option-cases (find_task id rows)) [
  | inl e ↦ e
  | inr (row, e) ↦ absurd (none_not_some h (found_frozen id rows row e))
]

-- a row of a table with the same columns
pub find_same :
    (rows rows' : List TaskRow) (id : Text) (row : TaskRow)
    → map frozen rows' ≡ map frozen rows
    → find_task id rows' ≡ some row
    → (old : TaskRow) × (find_task id rows ≡ some old) × (frozen old ≡ frozen row)
find_same rows rows' id row same found =
    let here = ap (find_task id) (sym same) ∙ found_frozen id rows' row found in
    elim (Option-cases (find_task id rows)) [
      | inl e ↦ absurd (none_not_some (none-frozen id rows e) here)
      | inr (old, e) ↦ (old, e, some_inj (sym (found_frozen id rows old e) ∙ here))
    ]
