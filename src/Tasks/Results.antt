-- ===== src/Tasks/Results.antt =====
-- Which Result frames `complete_task` accepts, and what becomes of them.
use backplaned_agents.Prelude.{
  ◌==◌, nat_eq, list_eq, option_eq, Text, ==_self, ◌≡◌, refl, sym, ap, ◌∙◌, ◌↔◌, ◌⊎◌, inl, inr,
  true, false, ◌||◌, none, some, [], arith, Bool-cases, Option-cases, some_inj,
}
use mathlib.Core.Path.{subst}
use backplaned_agents.State.{
  TaskState, TaskRow, Db, Outcome, raised, TransitionResult, TransitionError, illegal_transition,
  task_not_found, find_task, task_transition, same_state, is_allowed, is_terminal,
}
use backplaned_agents.State.Transitions.{
  Outcome-cases, done_result, done_from, done_row, raised_unchanged, terminal_not_allowed,
}
use backplaned_agents.Delivery.Given.{IsGiven, deliver_frame-IsGiven}
use backplaned_agents.Tasks.App.{
  state_from_status, ResultFrame, result_frame, App, notify_task_terminal, send,
}
use backplaned_agents.Tasks.Complete.{
  forwarded, result_details, forwarded_frame, settle_result, complete_task,
}

-- a result of the agent that executes the task, for a task that is in the reported state or may go
-- there
pub record IsDue (app : App) (frame : ResultFrame) (reporter : Text) : Type 0 where
  pub row : TaskRow
  pub found : find_task frame.task_id app.db.tasks ≡ some row
  pub executes : (reporter == row.active_agent_id) ≡ true
  pub may :
      (same_state row.state (state_from_status frame.status)
        || is_allowed row.state (state_from_status frame.status))
      ≡ true

closed :
    (to s : TaskState)
    → is_terminal s ≡ true
    → same_state s to ≡ false
    → (same_state s to || is_allowed s to) ≡ true
    → ⊥
closed to s t o may = ground (arith, terminal_not_allowed s to)

module _ (app : App) (frame : ResultFrame) (reporter : Text) where
  abbrev outcome : Db × Outcome TransitionResult
  outcome =
      task_transition app.db frame.task_id (state_from_status frame.status)
        (result_details frame reporter)

  -- the call for a known task and its executing agent
  settled :
      (row : TaskRow)
      → find_task frame.task_id app.db.tasks ≡ some row
      → (reporter == row.active_agent_id) ≡ true
      → complete_task app frame reporter
        ≡ settle_result (record app { db = outcome.0 }) row frame reporter outcome.1
  unfolding complete_task
  settled row f a = rw (f, a, complete_task) refl

  pub due_forwarded :
      (due : IsDue app frame reporter)
      → complete_task app frame reporter ≡ (
        send
            (notify_task_terminal (record app { db = outcome.0 }) frame.task_id)
            due.row.caller_agent_id
            (result_frame (forwarded_frame due.row frame reporter)),
        forwarded,
      )
  unfolding settle_result
  due_forwarded due =
      settled due.row due.found due.executes
      ∙ (rw
          (done_result app.db frame.task_id (state_from_status frame.status)
            (result_details frame reporter) due.row due.found due.may)
          refl)

  raised_dropped :
      (row : TaskRow) (e : TransitionError)
      → outcome.1 ≡ raised e
      → (complete_task app frame reporter
          ≡ settle_result (record app { db = outcome.0 }) row frame reporter outcome.1)
      → ((complete_task app frame reporter).0 ≡ app)
        × ¬ ((complete_task app frame reporter).1 ≡ forwarded)
  unfolding settle_result
  raised_dropped row (illegal_transition t frm to) h s =
      rw (s, h)
        (
          ap (λ d. record app { db = d })
              (raised_unchanged app.db frame.task_id (state_from_status frame.status)
                (result_details frame reporter) _ h),
          λ c. absurd (ground arith),
        )
  raised_dropped row (task_not_found t) h s =
      rw (s, h)
        (
          ap (λ d. record app { db = d })
              (raised_unchanged app.db frame.task_id (state_from_status frame.status)
                (result_details frame reporter) _ h),
          λ c. absurd (ground arith),
        )

  -- each call either is due, or changes nothing
  pub due_or_dropped :
      IsDue app frame reporter
      ⊎ (((complete_task app frame reporter).0 ≡ app)
          × ¬ ((complete_task app frame reporter).1 ≡ forwarded))
  unfolding complete_task
  due_or_dropped = elim (Option-cases (find_task frame.task_id app.db.tasks)) [
    | inl e ↦ inr (rw (e, complete_task) (refl, λ c. absurd (ground arith)))
    | inr (row, e) ↦ elim (Bool-cases (reporter == row.active_agent_id)) [
      | inl a ↦ elim (Outcome-cases outcome.1) [
        | inl (r, o) ↦
            let (row', found, may) =
              done_from app.db frame.task_id (state_from_status frame.status)
                (result_details frame reporter) r o in
            inl (record {
              row = row;
              found = e;
              executes = a;
              may =
                  subst
                    (λ x.
                      (same_state x.state (state_from_status frame.status)
                        || is_allowed x.state (state_from_status frame.status))
                      ≡ true)
                    (some_inj (sym found ∙ e)) may;
            })
        | inr (x, o) ↦ inr (raised_dropped row x o (settled row e a))
      ]
      | inr a ↦ inr (rw (e, a, complete_task) (refl, λ c. absurd (ground arith)))
    ]
  ]

  -- A Result is forwarded exactly when it is due: the task exists, the reporter is the agent that
  -- executes it, and the task is in the reported state already or may go there.
  pub forwarded_iff : ((complete_task app frame reporter).1 ≡ forwarded) ↔ IsDue app frame reporter
  forwarded_iff = (
    λ h. elim due_or_dropped [ inl due ↦ due | inr (_, never) ↦ absurd (never h) ],
    λ due. ap (λ r. r.1) (due_forwarded due),
  )

  -- A Result that is not forwarded changes nothing: no row, no event, no socket and no cache.
  pub dropped_unchanged :
      ¬ ((complete_task app frame reporter).1 ≡ forwarded)
      → (complete_task app frame reporter).0 ≡ app
  dropped_unchanged h = elim due_or_dropped [
    | inl due ↦ absurd (h (forwarded_iff.1 due))
    | inr (same, _) ↦ same
  ]

  -- A Result that is due puts the task into the reported state and no other task into any. Its frame,
  -- stamped with the reporter's name and the task's parent, is appended once to the outbox of the
  -- caller's socket, if the caller is connected and its outbox has room; no other socket changes.
  pub due_effect :
      (due : IsDue app frame reporter) (other : Text)
      → let app' = (complete_task app frame reporter).0 in
        ((row : TaskRow) × (find_task frame.task_id app'.db.tasks ≡ some row)
          × (row.state ≡ state_from_status frame.status))
        × ((frame.task_id == other) ≡ false
            → find_task other app'.db.tasks ≡ find_task other app.db.tasks)
        × IsGiven app.hub app'.hub due.row.caller_agent_id
            (result_frame (forwarded_frame due.row frame reporter))
  unfolding send notify_task_terminal
  due_effect due other =
      let (here, others) =
        done_row app.db frame.task_id (state_from_status frame.status)
          (result_details frame reporter) _ other
          (done_result app.db frame.task_id (state_from_status frame.status)
            (result_details frame reporter) due.row due.found due.may) in
      rw (due_forwarded due) (here, others, deliver_frame-IsGiven app.hub _ _ [] none 0)

  -- The log line "duplicate Result dropped" and the promise of one Result per task do not cover a
  -- Result with the status that the task has already: an agent that executes a task in that state
  -- has it forwarded once more.
  pub same_status_resent :
      (row : TaskRow)
      → find_task frame.task_id app.db.tasks ≡ some row
      → row.active_agent_id ≡ reporter
      → row.state ≡ state_from_status frame.status
      → (complete_task app frame reporter).1 ≡ forwarded
  same_status_resent row found active state = forwarded_iff.1 (record {
    row = row;
    found = found;
    executes = rw active (==_self reporter);
    may = rw state (ground arith);
  })

  -- A Result for a task that has ended with another status is a dropped duplicate.
  pub other_status_dropped :
      (row : TaskRow)
      → find_task frame.task_id app.db.tasks ≡ some row
      → is_terminal row.state ≡ true
      → same_state row.state (state_from_status frame.status) ≡ false
      → ¬ ((complete_task app frame reporter).1 ≡ forwarded)
  unfolding is_allowed
  other_status_dropped row found ended other h =
      let due = forwarded_iff.0 h in
      let same = some_inj (sym found ∙ due.found) in
      absurd (
        closed (state_from_status frame.status) row.state ended other (
          subst
            (λ x.
              (same_state x.state (state_from_status frame.status)
                || is_allowed x.state (state_from_status frame.status))
              ≡ true)
            (sym same) due.may))
