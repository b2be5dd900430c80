-- ===== src/Admit/Created.antt =====
-- What a new row is, and that no two rows share an idempotency key.
use backplaned_agents.Prelude.{
  ◌==◌, nat_eq, list_eq, option_eq, Text, text_iff, ◌≡◌, refl, sym, ap, ◌∙◌, ◌⊎◌, inl, inr, true,
  false, Option, none, some, List, [], ◌∷◌, ◌++◌, arith, if◌then◌else◌, Bool-cases, Option-cases,
  is_some, some_inj,
}
use backplaned_agents.State.{TaskRow, Db, find_task}
use backplaned_agents.Admit.Queries.{
  NewTask, new_row, root_of, key_taken, deadline_ok, create_task, find_idempotent, has_key,
}

-- no two tasks share an idempotency key of one caller and user
abbrev pub HasUniqueKeys : List TaskRow → Type 0
HasUniqueKeys rows =
    (a b caller user key : Text) (row row' : TaskRow)
    → find_task a rows ≡ some row
    → find_task b rows ≡ some row'
    → has_key caller user key row ≡ true
    → has_key caller user key row' ≡ true
    → a ≡ b

-- a root is its own root, and every other task has its parent in the table, of the same user and
-- under the same root
pub record IsLinked (rows : List TaskRow) (row : TaskRow) : Type 0 where
  pub own_root : row.parent_task_id ≡ none → row.root_task_id ≡ row.task_id
  pub parent_of :
      (p : Text)
      → row.parent_task_id ≡ some p
      → (parent : TaskRow) × (find_task p rows ≡ some parent)
        × (parent.user_id ≡ row.user_id)
        × (parent.root_task_id ≡ row.root_task_id)

abbrev pub IsForest : List TaskRow → Type 0
IsForest rows = (id : Text) (row : TaskRow) → find_task id rows ≡ some row → IsLinked rows row

-- `create_task` that returns a row
pub record IsCreated (db : Db) (task_id : Text) (t : NewTask) (db' : Db) (row : TaskRow)
    : Type 0 where
  pub root : Text
  pub rooted : root_of db t.user_id task_id t.parent_task_id ≡ some root
  pub fresh : find_task task_id db.tasks ≡ none
  pub free : key_taken db t ≡ false
  pub row_is : row ≡ new_row task_id root t
  pub appended : db' ≡ record db { tasks = db.tasks ++ new_row task_id root t ∷ [] }

is_some-none : {A : Type 0} (o : Option A) → is_some o ≡ false → o ≡ none
is_some-none none h = refl
is_some-none (some a) h = absurd (ground arith)

pub inl_inj : {A B : Type 0} {a b : A} → ◌≡◌ {A = A ⊎ B} (inl a) (inl b) → a ≡ b
inl_inj {a = a} p = ap (λ s. elim s [ inl x ↦ x | inr y ↦ a ]) p

pub created :
    (db : Db) (task_id : Text) (t : NewTask) (row : TaskRow)
    → (create_task db task_id t).1 ≡ inl row
    → IsCreated db task_id t (create_task db task_id t).0 row
unfolding create_task
created db task_id t row h = elim (Option-cases (root_of db t.user_id task_id t.parent_task_id)) [
  | inl e ↦ absurd (ground (arith, rw (e, create_task) at h))
  | inr (root, e) ↦ elim (Bool-cases (deadline_ok t)) [
    | inr d ↦ absurd (ground (arith, rw (e, d, create_task) at h))
    | inl d ↦ elim (Bool-cases (is_some (find_task task_id db.tasks))) [
      | inl i ↦ absurd (ground (arith, rw (e, d, i, create_task) at h))
      | inr i ↦ elim (Bool-cases (key_taken db t)) [
        | inl k ↦ absurd (ground (arith, rw (e, d, i, k, create_task) at h))
        | inr k ↦ record {
          root = root;
          rooted = e;
          fresh = is_some-none _ i;
          free = k;
          row_is = sym (inl_inj (rw (e, d, i, k, create_task) at h));
          appended = rw (e, d, i, k, create_task) refl;
        }
      ]
    ]
  ]
]

pub find_task-append :
    (id : Text) (rows : List TaskRow) (new : TaskRow)
    → find_task id (rows ++ new ∷ []) ≡ elim (find_task id rows) [
      | none ↦ if new.task_id == id then some new else none
      | some row ↦ some row
    ]
unfolding find_task
find_task-append id [] new = refl
find_task-append id (row ∷ rows) new = elim (Bool-cases (row.task_id == id)) [
  | inl y ↦ rw y refl
  | inr n ↦ rw n (find_task-append id rows new)
]

pub still_found :
    (id : Text) (rows : List TaskRow) (new row : TaskRow)
    → find_task id rows ≡ some row
    → find_task id (rows ++ new ∷ []) ≡ some row
still_found id rows new row h = rw (find_task-append id rows new, h) refl

pub new_found :
    (id : Text) (rows : List TaskRow) (new : TaskRow)
    → find_task id rows ≡ none
    → find_task id (rows ++ new ∷ []) ≡ (if new.task_id == id then some new else none)
new_found id rows new h = rw (find_task-append id rows new, h) refl

-- a row of a longer table is an old one, or the new one
pub old_or_new :
    (id : Text) (rows : List TaskRow) (new : TaskRow) (row : TaskRow)
    → find_task id (rows ++ new ∷ []) ≡ some row
    → (find_task id rows ≡ some row)
      ⊎ ((new.task_id ≡ id) × (new ≡ row) × (find_task id rows ≡ none))
old_or_new id rows new row h = elim (Option-cases (find_task id rows)) [
  | inr (old, e) ↦ inl (e ∙ sym (still_found id rows new old e) ∙ h)
  | inl e ↦
      let here = sym (new_found id rows new e) ∙ h in
      elim (Bool-cases (new.task_id == id)) [
        | inl y ↦ inr ((text_iff new.task_id id).0 y, some_inj (rw y at here), e)
        | inr n ↦ absurd (ground (arith, rw n at here))
      ]
]

-- a row with a key is found by its key
pub found_by_key :
    (caller user key id : Text) (rows : List TaskRow) (row : TaskRow)
    → find_task id rows ≡ some row
    → has_key caller user key row ≡ true
    → is_some (find_idempotent caller user key rows) ≡ true
unfolding find_task find_idempotent
found_by_key caller user key id [] row h k = absurd (ground (arith, h))
found_by_key caller user key id (r ∷ rows) row h k = elim (Bool-cases (has_key caller user key r)) [
  | inl y ↦ rw y refl
  | inr n ↦ elim (Bool-cases (r.task_id == id)) [
    | inl t ↦
        absurd (ground (arith, sym n ∙ ap (has_key caller user key) (some_inj (rw t at h)) ∙ k))
    | inr t ↦ rw n (found_by_key caller user key id rows row (rw t at h) k)
  ]
]
