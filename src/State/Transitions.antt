-- ===== src/State/Transitions.antt =====
-- What one call of `task_transition` does to the database.
use backplaned_agents.Prelude.{
  ◌==◌, nat_eq, list_eq, option_eq, Text, text_iff, ==_self, ◌≡◌, refl, ◌↔◌, ◌⊎◌, inl, inr, true,
  false, ◌||◌, none, some, List, [], ◌∷◌, ◌++◌, arith, if◌then◌else◌, Bool-cases, Option-cases,
  length,
}
use backplaned_agents.State.{
  Outcome, raised, done, TaskState, is_terminal, same_state, is_allowed, TaskRow, transition,
  transition_noop, Db, TransitionResult, TransitionError, Details, find_task, update_task,
  set_state, insert_event, event_of, move, task_transition,
}

pub same_state_iff : (a b : TaskState) → (same_state a b ≡ true) ↔ (a ≡ b)
same_state_iff a b = ground arith

-- No transition leads out of a terminal state.
pub terminal_not_allowed : (a b : TaskState) → is_allowed a b ≡ true → is_terminal a ≡ false
unfolding is_allowed
terminal_not_allowed a b h = ground arith

-- A lookup after an update that keeps the ids.
pub find-update :
    (id other : Text) (change : TaskRow → TaskRow) (rows : List TaskRow)
    → ((row : TaskRow) → (change row).task_id ≡ row.task_id)
    → find_task other (update_task id change rows) ≡ (
        if id == other
        then (elim (find_task other rows) [ none ↦ none | some row ↦ some (change row) ])
        else find_task other rows)
unfolding find_task update_task
find-update id other change [] keep = ground arith
find-update id other change (row ∷ rows) keep = ground (
  arith,
  keep row,
  text_iff row.task_id id,
  text_iff row.task_id other,
  text_iff id other,
  find-update id other change rows keep,
)

pub find_task-id :
    (id : Text) (rows : List TaskRow) {row : TaskRow}
    → find_task id rows ≡ some row
    → row.task_id ≡ id
unfolding find_task
find_task-id id [] h = ground arith
find_task-id id (r ∷ rows) {row} h =
    ground (arith, text_iff r.task_id id, find_task-id id rows {row = row})

-- the database after the call: a refusal writes nothing, a transition to the same state is an event
-- alone, and an allowed one sets the row and leaves an event
pub data Effect (db : Db) (id : Text) (new : TaskState) (d : Details) : Db → Type 0 where
  refused : Effect db id new d db
  observed :
      (row : TaskRow)
      → find_task id db.tasks ≡ some row
      → row.state ≡ new
      → Effect db id new d
          (record db { events = db.events ++ event_of id transition_noop row.state new d ∷ [] })
  moved :
      (row : TaskRow)
      → find_task id db.tasks ≡ some row
      → is_allowed row.state new ≡ true
      → Effect db id new d (record {
        tasks = update_task id (set_state new d) db.tasks;
        events = db.events ++ event_of id transition row.state new d ∷ [];
      })

module _ (db : Db) (id : Text) (new : TaskState) (d : Details) where
  move-Effect :
      (row : TaskRow)
      → find_task id db.tasks ≡ some row
      → Effect db id new d (move db id row.state new d).0
  unfolding move
  move-Effect row h = elim (Bool-cases (same_state row.state new)) [
    | inl e ↦ rw (e, move) (observed row h ((same_state_iff row.state new).0 e))
    | inr e ↦ elim (Bool-cases (is_allowed row.state new)) [
      | inl a ↦ rw (e, move) (rw a (moved row h a))
      | inr a ↦ rw (e, move) (rw a refused)
    ]
  ]

  pub transition-Effect : Effect db id new d (task_transition db id new d).0
  unfolding task_transition
  transition-Effect = elim (Option-cases (find_task id db.tasks)) [
    | inl e ↦ rw (e, task_transition) refused
    | inr (row, e) ↦ rw (e, task_transition) (move-Effect row e)
  ]

  -- A call that raises has written nothing.
  pub raised_unchanged :
      (e : TransitionError)
      → (task_transition db id new d).1 ≡ raised e
      → (task_transition db id new d).0 ≡ db
  unfolding task_transition move
  raised_unchanged e h = ground arith

  pub done_result :
      (row : TaskRow)
      → find_task id db.tasks ≡ some row
      → (same_state row.state new || is_allowed row.state new) ≡ true
      → (task_transition db id new d).1
        ≡ done (record {
          task_id = id;
          previous_state = row.state;
          new_state = new;
          event_id = length db.events;
        })
  unfolding task_transition move insert_event
  done_result row h may = rw (h, task_transition) (ground arith)

  pub done_from :
      (r : TransitionResult)
      → (task_transition db id new d).1 ≡ done r
      → (row : TaskRow) × (find_task id db.tasks ≡ some row)
        × ((same_state row.state new || is_allowed row.state new) ≡ true)
  unfolding task_transition move
  done_from r h = elim (Option-cases (find_task id db.tasks)) [
    | inl e ↦ absurd (ground arith)
    | inr (row, e) ↦ (row, e, ground arith)
  ]

  pub tasks_after :
      (row : TaskRow)
      → find_task id db.tasks ≡ some row
      → (same_state row.state new || is_allowed row.state new) ≡ true
      → (task_transition db id new d).0.tasks
        ≡ (if same_state row.state new then db.tasks else update_task id (set_state new d) db.tasks)
  unfolding task_transition move insert_event
  tasks_after row h may = rw (h, task_transition) (ground arith)

  -- A call returns exactly when the task exists and is in the new state already, or may go there.
  pub transition_done_iff :
      ((r : TransitionResult) × ((task_transition db id new d).1 ≡ done r)) ↔ (
        (row : TaskRow) × (find_task id db.tasks ≡ some row)
        × ((same_state row.state new || is_allowed row.state new) ≡ true))
  unfolding task_transition move
  transition_done_iff =
      (λ (r, h). done_from r h, λ (row, found, may). (_, done_result row found may))

  -- After a call that returns the task is in the new state, and no other task has changed.
  pub done_row :
      (r : TransitionResult) (other : Text)
      → (task_transition db id new d).1 ≡ done r
      → ((row : TaskRow) × (find_task id (task_transition db id new d).0.tasks ≡ some row)
          × (row.state ≡ new))
        × ((id == other) ≡ false
            → find_task other (task_transition db id new d).0.tasks ≡ find_task other db.tasks)
  done_row r other h =
      let (row, found, may) = done_from r h in
      elim (Bool-cases (same_state row.state new)) [
        | inl e ↦ (
          (row, rw (tasks_after row found may) (rw e found), (same_state_iff row.state new).0 e),
          λ _. rw (tasks_after row found may) (rw e),
        )
        | inr e ↦ (
          (
            set_state new d row,
            rw (tasks_after row found may) (
                rw e (
                  rw (find-update id id (set_state new d) db.tasks (λ r'. refl))
                    (rw (==_self id) (rw found)))),
            refl,
          ),
          λ o.
              rw (tasks_after row found may)
                (rw e (rw (find-update id other (set_state new d) db.tasks (λ r'. refl)) (rw o))),
        )
      ]

-- what a call comes to
pub Outcome-cases {ℓ} :
    {A : Type ℓ} (o : Outcome A)
    → ((a : A) × (o ≡ done a)) ⊎ ((e : TransitionError) × (o ≡ raised e))
Outcome-cases (done a) = inl (a, refl)
Outcome-cases (raised e) = inr (e, refl)
