-- ===== src/Admit/History.antt =====
-- What holds over any sequence of calls of a router.
use backplaned_agents.Prelude.{
  ◌==◌, nat_eq, list_eq, option_eq, Text, text_iff, ◌≤◌, ◌≡◌, refl, sym, ap, ◌∙◌, inl, inr, true,
  Option, none, some, List, arith, Bool-cases, some_inj,
}
use backplaned_agents.State.{TaskRow, Db, find_task, is_terminal}
use backplaned_agents.State.Transitions.{find-update}
use backplaned_agents.State.Histories.{terminal_row_is_final, endings, ended}
use backplaned_agents.Tasks.Delegate.{handed_to}
use backplaned_agents.Admit.Queries.{new_row}
use backplaned_agents.Admit.Guards.{AdmitSetting, Router}
use backplaned_agents.Admit.Frozen.{frozen, frozen-attempt, frozen_update, find_same}
use backplaned_agents.Admit.Created.{still_found}
use backplaned_agents.Admit.Steps.{
  Step, Steps, moves, hands_over, creates, stay, step, IsSound, Steps-IsSound,
}
use backplaned_agents.Admit.Lifecycle.{Call, calls, calls-Steps}

keep_ended :
    {db db' : Db}
    → Step db db'
    → (id : Text) (row : TaskRow) → find_task id db.tasks ≡ some row
    → is_terminal row.state ≡ true
    → find_task id db'.tasks ≡ some row
keep_ended {db} (moves more) id row found t = terminal_row_is_final db more id row found t
keep_ended {db} (hands_over frame caller held) id row found t =
    elim (Bool-cases (frame.task_id == id)) [
      | inl y ↦ absurd (
          ground (
            arith,
            sym held.unended
                ∙ ap (λ x. is_terminal x.state)
                    (some_inj (
                      sym held.found
                      ∙ ap (λ i. find_task i db.tasks) ((text_iff frame.task_id id).0 y)
                      ∙ found))
                ∙ t,
          ))
      | inr n ↦
          rw
            (
              find-update frame.task_id id (handed_to frame.destination_agent_id) db.tasks
                  (λ r. refl),
              n,
            )
            found
    ]
keep_ended {db} (creates task_id caller t db' new made) id row found ended =
    rw made.appended (still_found id db.tasks (new_row task_id made.root t) row found)

Steps-keep_ended :
    {db db' : Db}
    → Steps db db'
    → (id : Text) (row : TaskRow) → find_task id db.tasks ≡ some row
    → is_terminal row.state ≡ true
    → find_task id db'.tasks ≡ some row
Steps-keep_ended stay id row found t = found
Steps-keep_ended (step one more) id row found t =
    Steps-keep_ended more id row (keep_ended one id row found t) t

-- the task `id` is there with the columns of `row`
abbrev pub Keeps : Db → Text → TaskRow → Type 0
Keeps db id row = (now : TaskRow) × (find_task id db.tasks ≡ some now) × (frozen now ≡ frozen row)

keep_row :
    {db db' : Db} → Step db db' → (id : Text) (row : TaskRow) → Keeps db id row → Keeps db' id row
keep_row {db} (moves more) id row (now, found, e) =
    let (later, f, e') = find_same _ db.tasks id now (sym (frozen-attempt more db)) found in
    (later, f, e' ∙ e)
keep_row {db} (hands_over frame caller held) id row (now, found, e) =
    let (later, f, e') =
      find_same _ db.tasks id now
        (sym
          (frozen_update frame.task_id (handed_to frame.destination_agent_id) db.tasks (λ r. refl)))
        found in
    (later, f, e' ∙ e)
keep_row {db} (creates task_id caller t db' new made) id row (now, found, e) =
    (now, rw made.appended (still_found id db.tasks (new_row task_id made.root t) now found), e)

pub Steps-keep_row :
    {db db' : Db} → Steps db db' → (id : Text) (row : TaskRow) → Keeps db id row → Keeps db' id row
Steps-keep_row stay id row k = k
Steps-keep_row (step one more) id row k = Steps-keep_row more id row (keep_row one id row k)

ended_at_most : (o : Option TaskRow) → ended o ≤ 1
unfolding ended
ended_at_most none = omega arith
ended_at_most (some row) = ground arith

module _ {Schema : Type 0} (setting : AdmitSetting Schema) (r : Router) (more : List Call) where
  -- From sound tables (no id twice, no idempotency key twice for a caller and a user, each task under
  -- the root of its parent and of the same user, each ending in the log accounted for), every sequence
  -- of admissions, hand-overs, results, cancellations, failures, disconnects and deadline sweeps, in
  -- any interleaving of their parts, leaves sound tables.
  pub tables-IsSound : IsSound r.app.db → IsSound (calls setting r more).app.db
  tables-IsSound s = Steps-IsSound (calls-Steps setting more r) s

  -- From sound tables, the log of every such sequence tells at most one transition of a task into a
  -- terminal state.
  pub ends_once :
      (id : Text) → IsSound r.app.db → endings id (calls setting r more).app.db.events ≤ 1
  ends_once id s = omega (
    arith,
    (tables-IsSound s).accounted id,
    ended_at_most (find_task id (calls setting r more).app.db.tasks),
  )

  -- A task that has ended keeps its whole row, status code, output and error included, behind any
  -- sequence of the calls of Admit/Lifecycle: new tasks, hand-overs and Results among them, the purge of
  -- a session and the renaming of an evicted agent not.
  pub ended_row_final :
      (id : Text) (row : TaskRow)
      → find_task id r.app.db.tasks ≡ some row
      → is_terminal row.state ≡ true
      → find_task id (calls setting r more).app.db.tasks ≡ some row
  ended_row_final id row found t = Steps-keep_ended (calls-Steps setting more r) id row found t

  -- the modelled calls delete no task, and leave its tree, its user, its session, its destination, its
  -- caller, its key and its deadline
  pub task_never_lost :
      (id : Text) (row : TaskRow)
      → find_task id r.app.db.tasks ≡ some row
      → Keeps (calls setting r more).app.db id row
  task_never_lost id row found =
      Steps-keep_row (calls-Steps setting more r) id row (row, found, refl)
