-- ===== src/State/Histories.antt =====
-- What holds of the database over any sequence of calls of `task_transition`.
use backplaned_agents.Prelude.{
  ◌==◌, nat_eq, list_eq, option_eq, Text, text_iff, ℕ, ◌+◌, ◌≤◌, ◌≡◌, refl, Bool, true, false, ◌&&◌,
  Option, none, some, List, [], ◌∷◌, ◌++◌, arith, if◌then◌else◌,
}
use backplaned_agents.State.{
  TaskState, queued, is_terminal, TaskRow, EventKind, transition, transition_noop, TaskEvent, Db,
  Details, find_task, set_state, event_of, task_transition,
}
use backplaned_agents.State.Transitions.{
  Effect, refused, observed, moved, transition-Effect, terminal_not_allowed, find-update,
}

-- one attempt: the task, the state that is asked for, and the rest of the arguments
pub record Attempt : Type 0 where
  pub task_id : Text
  pub new_state : TaskState
  pub details : Details

unfoldable pub attempt : Db → List Attempt → Db
attempt db [] = db
attempt db (a ∷ more) = attempt (task_transition db a.task_id a.new_state a.details).0 more

-- `Q` of what a call leaves behind, from `Q` before it
attempt_induction {ℓ} :
    (Q : Db → Type ℓ)
    → ((db : Db) (a : Attempt) → Q db → Q (task_transition db a.task_id a.new_state a.details).0)
    → (db : Db) (more : List Attempt) → Q db
    → Q (attempt db more)
unfolding attempt
attempt_induction Q step db [] q = q
attempt_induction Q step db (a ∷ more) q =
    attempt_induction Q step (task_transition db a.task_id a.new_state a.details).0 more
      (step db a q)

-- does this event say that the task `id` went into a terminal state?
abbrev pub is_kind_transition : EventKind → Bool
is_kind_transition transition = true
is_kind_transition _ = false

abbrev pub goes_terminal : Option TaskState → Bool
goes_terminal none = false
goes_terminal (some s) = is_terminal s

abbrev pub ends : Text → TaskEvent → Bool
ends id e = e.task_id == id && is_kind_transition e.kind && goes_terminal e.to_state

unfoldable pub endings : Text → List TaskEvent → ℕ
endings id [] = 0
endings id (e ∷ events) = (if ends id e then 1 else 0) + endings id events

pub endings-append :
    (id : Text) (events : List TaskEvent) (e : TaskEvent)
    → endings id (events ++ e ∷ []) ≡ endings id events + (if ends id e then 1 else 0)
unfolding endings
endings-append id [] e = omega arith
endings-append id (x ∷ events) e = omega (arith, endings-append id events e)

-- 1 for a task in a terminal state, and 0 otherwise
unfoldable pub ended : Option TaskRow → ℕ
ended none = 0
ended (some row) = if is_terminal row.state then 1 else 0

-- each terminal transition in the log has its task in a terminal state, and there is at most one
abbrev pub IsAccounted : Db → Type 0
IsAccounted db = (id : Text) → endings id db.events ≤ ended (find_task id db.tasks)

Effect-IsAccounted :
    {db : Db} {id : Text} {new : TaskState} {d : Details} {db' : Db}
    → Effect db id new d db'
    → IsAccounted db
    → IsAccounted db'
unfolding ended
Effect-IsAccounted refused acc = acc
Effect-IsAccounted {db} {id} {new} {d} (observed row found same) acc = λ other.
    ground (
      arith,
      acc other,
      endings-append other db.events (event_of id transition_noop row.state new d),
    )
Effect-IsAccounted {db} {id} {new} {d} (moved row found may) acc = λ other. ground (
  arith,
  acc other,
  acc id,
  found,
  text_iff id other,
  terminal_not_allowed row.state new may,
  endings-append other db.events (event_of id transition row.state new d),
  find-update id other (set_state new d) db.tasks (λ r. refl),
)

pub attempt-IsAccounted :
    (db : Db) (attempts : List Attempt) → IsAccounted db → IsAccounted (attempt db attempts)
attempt-IsAccounted db attempts acc =
    attempt_induction IsAccounted
      (λ db' a q. Effect-IsAccounted (transition-Effect db' a.task_id a.new_state a.details) q) db
      attempts acc

-- Exactly-one-terminal: whatever transitions are attempted, in whatever order, the log never holds
-- more than one transition of a task into a terminal state.
pub at_most_one_ending :
    (db : Db) (attempts : List Attempt) (id : Text)
    → IsAccounted db
    → endings id (attempt db attempts).events ≤ 1
unfolding ended
at_most_one_ending db attempts id acc = ground (arith, attempt-IsAccounted db attempts acc id)

abbrev IsStill : Text → TaskRow → Db → Type 0
IsStill id row db = find_task id db.tasks ≡ some row

Effect-IsStill :
    {db : Db} {id : Text} {new : TaskState} {d : Details} {db' : Db}
    → Effect db id new d db'
    → (other : Text) (row : TaskRow) → is_terminal row.state ≡ true
    → IsStill other row db
    → IsStill other row db'
Effect-IsStill refused other row t h = h
Effect-IsStill (observed r found same) other row t h = h
Effect-IsStill {db} {id} {new} {d} (moved r found may) other row t h = ground (
  arith,
  text_iff id other,
  terminal_not_allowed r.state new may,
  find-update id other (set_state new d) db.tasks (λ r'. refl),
)

-- A task in a terminal state keeps its whole row, status code, output and error included, whatever
-- is attempted afterwards.
pub terminal_row_is_final :
    (db : Db) (attempts : List Attempt) (id : Text) (row : TaskRow)
    → find_task id db.tasks ≡ some row
    → is_terminal row.state ≡ true
    → find_task id (attempt db attempts).tasks ≡ some row
terminal_row_is_final db attempts id row h t =
    attempt_induction (IsStill id row)
      (λ db' a q. Effect-IsStill (transition-Effect db' a.task_id a.new_state a.details) id row t q)
      db attempts h

-- the state of the task `id` that the log tells, from the state it began in
abbrev next_state : TaskState → Option TaskState → TaskState
next_state s none = s
next_state s (some t) = t

unfoldable pub replay : Text → TaskState → List TaskEvent → TaskState
replay id s [] = s
replay id s (e ∷ events) =
    replay id (if e.task_id == id && is_kind_transition e.kind then next_state s e.to_state else s)
      events

replay-append :
    (id : Text) (s : TaskState) (events : List TaskEvent) (e : TaskEvent)
    → replay id s (events ++ e ∷ []) ≡ (
        if e.task_id == id && is_kind_transition e.kind
        then next_state (replay id s events) e.to_state
        else replay id s events)
unfolding replay
replay-append id s [] e = refl
replay-append id s (x ∷ events) e =
    replay-append id
      (if x.task_id == id && is_kind_transition x.kind then next_state s x.to_state else s) events e

-- the log tells the state of every task, all tasks having begun as queued
pub record IsLogged (db : Db) : Type 0 where
  pub told :
      (id : Text) (row : TaskRow)
      → find_task id db.tasks ≡ some row
      → replay id queued db.events ≡ row.state

Effect-IsLogged :
    {db : Db} {id : Text} {new : TaskState} {d : Details} {db' : Db}
    → Effect db id new d db'
    → IsLogged db
    → IsLogged db'
Effect-IsLogged refused l = l
Effect-IsLogged {db} {id} {new} {d} (observed row found same) l = record {
  told = λ other r h. ground (
    arith,
    l.told other r h,
    replay-append other queued db.events (event_of id transition_noop row.state new d),
  );
}
Effect-IsLogged {db} {id} {new} {d} (moved row found may) l = record {
  told = λ other r h. ground (
    arith,
    text_iff id other,
    found,
    l.told other r,
    replay-append other queued db.events (event_of id transition row.state new d),
    find-update id other (set_state new d) db.tasks (λ r'. refl),
  );
}

-- If the state of every task is what its transitions in the log tell, read from `queued`, then so it is
-- after any sequence of calls of `task_transition`, those that raise among them. A write that goes past
-- `task_transition`, which is `force_fail_task` alone, leaves no event and is not meant.
pub attempt-IsLogged :
    (db : Db) (attempts : List Attempt) → IsLogged db → IsLogged (attempt db attempts)
attempt-IsLogged db attempts l =
    attempt_induction IsLogged
      (λ db' a q. Effect-IsLogged (transition-Effect db' a.task_id a.new_state a.details) q) db
      attempts l
