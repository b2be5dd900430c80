-- ===== src/Tasks/Failed.antt =====
-- What `fail_task` and the deadline sweep leave behind.
use backplaned_agents.Prelude.{
  ◌==◌, nat_eq, list_eq, option_eq, Text, text_iff, ℕ, zero, suc, ◌≤◌, ◌<◌, ◌≡◌, refl, sym, ap, ◌∙◌,
  inl, inr, Bool, true, false, not, ◌&&◌, ◌||◌, none, some, List, [], ◌∷◌, map, arith, leb, le→leb,
  Bool-cases, Option-cases, some_inj, length, take, select, contains,
}
use mathlib.Core.Path.{subst}
use backplaned_agents.State.{
  TaskState, queued, running, waiting_children, TaskRow, Db, Details, find_task, task_transition,
  is_terminal, is_allowed, same_state,
}
use backplaned_agents.State.Transitions.{done_row, done_result, raised_unchanged, Outcome-cases}
use backplaned_agents.State.Histories.{Attempt, attempt, terminal_row_is_final}
use backplaned_agents.Tasks.App.{App}
use backplaned_agents.Tasks.Cancelled.{HasEnded, HasEnded-attempt}
use backplaned_agents.Tasks.Fail.{
  Ending, fails, times_out, Failure, failure_details, ending_state, fail_task, fail_each,
  sweep_once, deadline_exceeded, find_expired_tasks, sort_by_deadline, insert_by_deadline,
  is_expired,
}
use backplaned_agents.Tasks.Reaches.{
  Reaches, settle_failure-Reaches, fail_task-Reaches, fail_each-Reaches,
}

may_fail :
    (e : Ending) (s : TaskState)
    → is_terminal s ≡ false
    → (same_state s (ending_state e) || is_allowed s (ending_state e)) ≡ true
unfolding is_allowed
may_fail fails s h = ground arith
may_fail times_out s h = ground arith

HasEnded-Reaches :
    (id : Text) (db : Db) {db' : Db} → Reaches db db' → HasEnded id db → HasEnded id db'
HasEnded-Reaches id db (more, e) h = rw e (HasEnded-attempt db more id h)

ending_terminal : (e : Ending) → is_terminal (ending_state e) ≡ true
ending_terminal fails = refl
ending_terminal times_out = refl

-- the transition of `fail_task`
transition_ends :
    (db : Db) (id : Text) (f : Failure) (row : TaskRow)
    → find_task id db.tasks ≡ some row
    → HasEnded id (task_transition db id (ending_state f.ending) (failure_details f)).0
unfolding attempt
transition_ends db id f row found = elim (Bool-cases (is_terminal row.state)) [
  | inl t ↦ (
    row,
    terminal_row_is_final db
        (record { task_id = id; new_state = ending_state f.ending; details = failure_details f }
          ∷ [])
        id row found t,
    t,
  )
  | inr n ↦
      let ((row', found', state'), _) =
        done_row db id (ending_state f.ending) (failure_details f) _ id (
          done_result db id (ending_state f.ending) (failure_details f) row found
            (may_fail f.ending row.state n)) in
      (row', found', rw state' (ending_terminal f.ending))
]

-- Whatever the state of a known task is, it has ended behind `fail_task`.
pub fail_task_ends :
    (app : App) (id : Text) (f : Failure) (row : TaskRow)
    → find_task id app.db.tasks ≡ some row
    → HasEnded id (fail_task app id f).db
unfolding fail_task
fail_task_ends app id f row found =
    rw (found, fail_task)
      (HasEnded-Reaches id _ (settle_failure-Reaches _ row _ f _)
        (transition_ends app.db id f row found))

-- the task `id` is in the table
abbrev Known : Text → Db → Type 0
Known id db = (row : TaskRow) × (find_task id db.tasks ≡ some row)

Known-transition :
    (db : Db) (tid id : Text) (s : TaskState) (d : Details)
    → Known id db
    → Known id (task_transition db tid s d).0
Known-transition db tid id s d (row, found) = elim (Outcome-cases (task_transition db tid s d).1) [
  | inl (r, o) ↦
      let (here, others) = done_row db tid s d r id o in
      elim (Bool-cases (tid == id)) [
        | inl y ↦ (
          here.0,
          ap (λ t. find_task t (task_transition db tid s d).0.tasks) (sym ((text_iff tid id).0 y))
              ∙ here.1,
        )
        | inr n ↦ (row, others n ∙ found)
      ]
  | inr (e, o) ↦ (row, ap (λ db'. find_task id db'.tasks) (raised_unchanged db tid s d e o) ∙ found)
]

Known-attempt :
    (more : List Attempt) (db : Db) (id : Text) → Known id db → Known id (attempt db more)
unfolding attempt
Known-attempt [] db id k = k
Known-attempt (a ∷ more) db id k =
    Known-attempt more _ id (Known-transition db a.task_id id a.new_state a.details k)

abbrev pub ids : List TaskRow → List Text
ids rows = map (λ r. r.task_id) rows

fail_task_ends_as :
    (app : App) (tid id : Text) (f : Failure)
    → tid ≡ id
    → Known id app.db
    → HasEnded id (fail_task app tid f).db
fail_task_ends_as app tid id f e (row, found) =
    subst (λ t. HasEnded id (fail_task app t f).db) (sym e) (fail_task_ends app id f row found)

fail_each_ends :
    (rows : List TaskRow) (app : App) (f : TaskRow → Failure) (id : Text)
    → contains (ids rows) id ≡ true
    → Known id app.db
    → HasEnded id (fail_each app rows f).0.db
unfolding fail_each
fail_each_ends [] app f id c k = absurd (ground arith)
fail_each_ends (row ∷ rows) app f id c k = elim (Bool-cases (row.task_id == id)) [
  | inl y ↦
      HasEnded-Reaches id _ (fail_each-Reaches rows (fail_task app row.task_id (f row)) f)
        (fail_task_ends_as app row.task_id id (f row) ((text_iff row.task_id id).0 y) k)
  | inr n ↦
      let (more, e) = fail_task-Reaches app row.task_id (f row) in
      fail_each_ends rows (fail_task app row.task_id (f row)) f id (rw n at c)
        (rw e (Known-attempt more app.db id k))
]

ids-insert :
    (row : TaskRow) (rows : List TaskRow) (id : Text)
    → contains (ids (insert_by_deadline row rows)) id ≡ contains (ids (row ∷ rows)) id
unfolding insert_by_deadline
ids-insert row [] id = refl
ids-insert row (r ∷ rows) id = ground (arith, ids-insert row rows id)

ids-sort :
    (rows : List TaskRow) (id : Text)
    → contains (ids (sort_by_deadline rows)) id ≡ contains (ids rows) id
unfolding sort_by_deadline
ids-sort [] id = refl
ids-sort (row ∷ rows) id =
    ground (arith, ids-insert row (sort_by_deadline rows) id, ids-sort rows id)

length-insert :
    (row : TaskRow) (rows : List TaskRow) → length (insert_by_deadline row rows) ≡ suc (length rows)
unfolding insert_by_deadline
length-insert row [] = refl
length-insert row (r ∷ rows) = ground (arith, length-insert row rows)

length-sort : (rows : List TaskRow) → length (sort_by_deadline rows) ≡ length rows
unfolding sort_by_deadline
length-sort [] = refl
length-sort (row ∷ rows) = length-insert row (sort_by_deadline rows) ∙ ap suc (length-sort rows)

take_all : (n : ℕ) (rows : List TaskRow) → length rows ≤ n → take n rows ≡ rows
take_all zero [] h = refl
take_all zero (r ∷ rows) h = absurd (omega (arith, h))
take_all (suc n) [] h = refl
take_all (suc n) (r ∷ rows) h = ap (λ t. r ∷ t) (take_all n rows (omega (arith, h)))

pub ids-select :
    (p : TaskRow → Bool) (rows : List TaskRow) (id : Text) (row : TaskRow)
    → find_task id rows ≡ some row
    → p row ≡ true
    → contains (ids (select p rows)) id ≡ true
unfolding find_task
ids-select p [] id row found h = absurd (ground arith)
ids-select p (r ∷ rows) id row found h = elim (Bool-cases (r.task_id == id)) [
  | inl y ↦ rw (ap p (some_inj (rw y at found)) ∙ h) (rw y refl)
  | inr n ↦ elim (Bool-cases (p r)) [
    | inl t ↦ rw t (rw n (ids-select p rows id row (rw n at found) h))
    | inr f ↦ rw f (ids-select p rows id row (rw n at found) h)
  ]
]

-- the sweep ends what its query selects
sweep_ends_selected :
    (app : App) (now : ℕ) (id : Text) (row : TaskRow)
    → length (select (is_expired now) app.db.tasks) ≤ 100
    → find_task id app.db.tasks ≡ some row
    → is_expired now row ≡ true
    → HasEnded id (sweep_once app now).0.db
unfolding sweep_once find_expired_tasks
sweep_ends_selected app now id row few found expired =
    let rows = select (is_expired now) app.db.tasks in
    let all = take_all 100 (sort_by_deadline rows) (omega (arith, length-sort rows, few)) in
    fail_each_ends (find_expired_tasks app.db now 100) app deadline_exceeded id
      (rw all (ids-sort rows id ∙ ids-select (is_expired now) app.db.tasks id row found expired))
      (row, found)

-- a task that has a deadline in the past and is queued, running or waiting for its children
abbrev pub is_open : TaskState → Bool
is_open queued = true
is_open running = true
is_open waiting_children = true
is_open _ = false

abbrev pub is_overdue : ℕ → TaskRow → Bool
is_overdue now row = elim row.deadline [
  | none ↦ false
  | some deadline ↦ leb (suc deadline) now && is_open row.state
]

open-terminal : (s : TaskState) → is_open s ≡ not (is_terminal s)
open-terminal s = ground arith

overdue_expired : (now : ℕ) (row : TaskRow) → is_expired now row ≡ is_overdue now row
overdue_expired now row = elim (Option-cases row.deadline) [
  | inl e ↦ rw e refl
  | inr (d, e) ↦
      rw (e, open-terminal row.state) (ap (λ b. b && not (is_terminal row.state)) (ground arith))
]

select_same :
    (p q : TaskRow → Bool) (rows : List TaskRow)
    → ((r : TaskRow) → p r ≡ q r)
    → select p rows ≡ select q rows
select_same p q [] h = refl
select_same p q (r ∷ rows) h = rw (h r, select_same p q rows h) refl

-- The deadline sweep at `now` ends every task in the table whose deadline is before `now` and that is
-- queued, running or waiting for its children, if there are no more than 100 such tasks.
pub sweep_ends_expired :
    (app : App) (now : ℕ) (id : Text) (row : TaskRow) (deadline : ℕ)
    → length (select (is_overdue now) app.db.tasks) ≤ 100
    → find_task id app.db.tasks ≡ some row
    → row.deadline ≡ some deadline
    → deadline < now
    → is_open row.state ≡ true
    → HasEnded id (sweep_once app now).0.db
sweep_ends_expired app now id row deadline few found due late unended =
    sweep_ends_selected app now id row
      (rw (select_same (is_expired now) (is_overdue now) app.db.tasks (overdue_expired now)) few)
      found
      (overdue_expired now row
        ∙ rw (due, le→leb (suc deadline) now (omega (arith, late)), unended) refl)
