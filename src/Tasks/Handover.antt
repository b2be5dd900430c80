-- ===== src/Tasks/Handover.antt =====
-- When a task changes hands, and how far a chain of hand-overs can go.
use backplaned_agents.Prelude.{
  ◌==◌, nat_eq, list_eq, option_eq, Text, ==_self, ℕ, ◌≡◌, refl, sym, ap, ◌∙◌, ◌↔◌, ◌⊎◌, inl, inr,
  Bool, true, false, not, some, [], ◌∷◌, ◌++◌, arith, Bool-cases, Option-cases, is_some,
}
use backplaned_agents.State.{is_terminal, TaskRow, Db, find_task, update_task, insert_event}
use backplaned_agents.State.Transitions.{find-update}
use backplaned_agents.Delivery.{acked}
use backplaned_agents.Tasks.App.{Ack, NewTaskFrame, App, recache_active_agent}
use backplaned_agents.Tasks.Checks.{
  AdmitError, task_unknown, task_terminal, not_active_executor, Setting, lock_task, check_executor,
  check_chain, check_acl,
}
use backplaned_agents.Tasks.Delegate.{
  dispatch, begin_delegation, Answer, acks, times_out, lost, answer_error, handed_to,
  delegated_event, reassign_active_agent, flip, finish_delegation,
}

pub sum_cases {ℓ κ} :
    {A : Type ℓ} {B : Type κ} (s : A ⊎ B) → ((a : A) × (s ≡ inl a)) ⊎ ((b : B) × (s ≡ inr b))
sum_cases (inl a) = inl (a, refl)
sum_cases (inr b) = inr (b, refl)

-- The tables stay as they are until the destination has answered: asking it writes nothing.
pub begin_writes_nothing :
    (app : App) (setting : Setting) (frame : NewTaskFrame) (caller cid : Text) (now : ℕ)
    → (begin_delegation app setting frame caller cid now).0.db ≡ app.db
unfolding dispatch begin_delegation
begin_writes_nothing app setting frame caller cid now =
    elim (sum_cases (check_acl setting frame caller)) [
      | inr (e, h) ↦ rw (h, begin_delegation) refl
      | inl (level, h) ↦
          elim (sum_cases (check_executor app.db frame.user_id frame.task_id caller)) [
            | inr (e, i) ↦ rw (h, i, begin_delegation) refl
            | inl (row, i) ↦
                elim (sum_cases (check_chain app.db setting row frame.destination_agent_id)) [
                  | inr (e, j) ↦ rw (h, i, j, begin_delegation) refl
                  | inl (r, j) ↦ rw (h, i, j, begin_delegation) refl
                ]
          ]
    ]

-- the row that phase C wants: the caller executes the task, which has not ended
pub record IsHeld (db : Db) (frame : NewTaskFrame) (caller : Text) : Type 0 where
  pub row : TaskRow
  pub found : find_task frame.task_id db.tasks ≡ some row
  pub of_user : (row.user_id == frame.user_id) ≡ true
  pub unended : is_terminal row.state ≡ false
  pub executes : (row.active_agent_id == caller) ≡ true

module _ (db : Db) (frame : NewTaskFrame) (caller : Text) where
  lock_held :
      (held : IsHeld db frame caller) → lock_task db frame.user_id frame.task_id ≡ some held.row
  unfolding lock_task
  lock_held held = rw (held.found, held.of_user, lock_task) refl

  check_held :
      (held : IsHeld db frame caller)
      → check_executor db frame.user_id frame.task_id caller ≡ inl held.row
  unfolding check_executor
  check_held held = rw (lock_held held, held.unended, held.executes, check_executor) refl

  held_or_error :
      IsHeld db frame caller
      ⊎ ((e : AdmitError) × (check_executor db frame.user_id frame.task_id caller ≡ inr e))
  unfolding check_executor lock_task
  held_or_error = elim (Option-cases (find_task frame.task_id db.tasks)) [
    | inl f ↦ inr (task_unknown, rw (f, check_executor, lock_task) refl)
    | inr (row, f) ↦ elim (Bool-cases (row.user_id == frame.user_id)) [
      | inr u ↦ inr (task_unknown, rw (f, u, check_executor, lock_task) refl)
      | inl u ↦ elim (Bool-cases (is_terminal row.state)) [
        | inl t ↦ inr (task_terminal, rw (f, u, t, check_executor, lock_task) refl)
        | inr t ↦ elim (Bool-cases (row.active_agent_id == caller)) [
          | inr a ↦ inr (not_active_executor, rw (f, u, t, a, check_executor, lock_task) refl)
          | inl a ↦ inl (record { row = row; found = f; of_user = u; unended = t; executes = a })
        ]
      ]
    ]
  ]

module _ (app : App) (frame : NewTaskFrame) (caller : Text) where
  pub held_flips :
      (held : IsHeld app.db frame caller)
      → flip app frame caller ≡ (
        record (recache_active_agent app frame.task_id frame.destination_agent_id) {
          db = record app.db {
            tasks = update_task frame.task_id (handed_to frame.destination_agent_id) app.db.tasks;
            events =
                app.db.events
                ++ delegated_event frame.task_id caller frame.destination_agent_id ∷ [];
          };
        },
        inl frame.task_id,
      )
  unfolding flip check_executor lock_task reassign_active_agent insert_event
  held_flips held =
      rw (check_held app.db frame caller held, flip)
        (rw (lock_held app.db frame caller held, held.executes, reassign_active_agent) refl)

  held_or_refused :
      IsHeld app.db frame caller ⊎ ((e : AdmitError) × (flip app frame caller ≡ (app, inr e)))
  unfolding flip
  held_or_refused = elim (held_or_error app.db frame caller) [
    | inl held ↦ inl held
    | inr (e, h) ↦ inr (e, rw (h, flip) refl)
  ]

refused_not_done : {id : Text} (e : AdmitError) → ¬ (inr e ≡ inl id)
refused_not_done e h = absurd (ground (arith, h))

abbrev pub accepted : Answer → Bool
accepted answer = not (is_some (answer_error answer))

-- the destination has sent an ack that accepts the task
abbrev pub DidAccept : Answer → Type 0
DidAccept answer = (ack : Ack) × (answer ≡ acks ack) × (ack.accepted ≡ true)

did_accept : (answer : Answer) → accepted answer ≡ true → DidAccept answer
did_accept (acks ack) h = (ack, refl, ground (arith, h))
did_accept times_out h = absurd (ground (arith, h))
did_accept lost h = absurd (ground (arith, h))

accepts : (answer : Answer) → DidAccept answer → accepted answer ≡ true
accepts answer (ack, is_ack, ok) = rw (is_ack, ok) refl

-- without the id in flight
abbrev pub waited : App → NewTaskFrame → Text → App
waited app frame cid = record app { hub = acked app.hub frame.destination_agent_id cid }

module _ (app : App) (frame : NewTaskFrame) (caller cid : Text) (answer : Answer) where
  pub finish_accepted :
      accepted answer ≡ true
      → finish_delegation app frame caller cid answer ≡ flip (waited app frame cid) frame caller
  unfolding finish_delegation
  finish_accepted h = elim (Option-cases (answer_error answer)) [
    | inl e ↦ rw (e, finish_delegation) refl
    | inr (x, e) ↦ absurd (ground (arith, e))
  ]

  succeeded_flip :
      accepted answer ≡ true
      → IsHeld app.db frame caller
      → (finish_delegation app frame caller cid answer).1 ≡ inl frame.task_id
  succeeded_flip h held =
      ap (λ r. r.1)
        (finish_accepted h
          ∙ held_flips (waited app frame cid) frame caller (record {
            row = held.row;
            found = held.found;
            of_user = held.of_user;
            unended = held.unended;
            executes = held.executes;
          }))

  pub finish_cases :
      ((accepted answer ≡ true) × IsHeld app.db frame caller)
      ⊎ ((e : AdmitError) × (finish_delegation app frame caller cid answer
            ≡ (waited app frame cid, inr e)))
  unfolding finish_delegation
  finish_cases = elim (Option-cases (answer_error answer)) [
    | inl e ↦ elim (held_or_refused (waited app frame cid) frame caller) [
      | inl held ↦ inl (
        rw e refl,
        record {
          row = held.row;
          found = held.found;
          of_user = held.of_user;
          unended = held.unended;
          executes = held.executes;
        },
      )
      | inr (x, f) ↦ inr (x, rw (e, finish_delegation) f)
    ]
    | inr (x, e) ↦ inr (x, rw (e, finish_delegation) refl)
  ]

  -- A hand-over succeeds exactly when the destination accepted, and the caller executes the task,
  -- which is of the same user and has not ended by then.
  pub finish_iff :
      ((finish_delegation app frame caller cid answer).1 ≡ inl frame.task_id)
      ↔ (DidAccept answer × IsHeld app.db frame caller)
  finish_iff = (
    λ s. elim finish_cases [
      | inl (ok, held) ↦ (did_accept answer ok, held)
      | inr (e, f) ↦ absurd (refused_not_done e (sym (ap (λ r. r.1) f) ∙ s))
    ],
    λ (ok, held). succeeded_flip (accepts answer ok) held,
  )

  -- A hand-over that does not succeed leaves the tables and the cache as they are: only the id of
  -- the frame is no longer in flight.
  pub refused_unchanged :
      ¬ ((finish_delegation app frame caller cid answer).1 ≡ inl frame.task_id)
      → (finish_delegation app frame caller cid answer).0 ≡ waited app frame cid
  refused_unchanged h = elim finish_cases [
    | inl (ok, held) ↦ absurd (h (succeeded_flip ok held))
    | inr (e, f) ↦ ap (λ r. r.0) f
  ]

  -- A hand-over that succeeds makes the destination the agent that executes the task, keeps every
  -- other column and every other task, and leaves one event.
  pub handed_over :
      (held : IsHeld app.db frame caller) (other : Text)
      → accepted answer ≡ true
      → let db' = (finish_delegation app frame caller cid answer).0.db in
        (find_task frame.task_id db'.tasks ≡ some (handed_to frame.destination_agent_id held.row))
        × ((frame.task_id == other) ≡ false
            → find_task other db'.tasks ≡ find_task other app.db.tasks)
        × (db'.events
            ≡ app.db.events ++ delegated_event frame.task_id caller frame.destination_agent_id ∷ [])
  handed_over held other ok =
      let same : IsHeld (waited app frame cid).db frame caller = record {
        row = held.row;
        found = held.found;
        of_user = held.of_user;
        unended = held.unended;
        executes = held.executes;
      } in
      rw (finish_accepted ok ∙ held_flips (waited app frame cid) frame caller same) (
        rw
            (
              find-update frame.task_id frame.task_id (handed_to frame.destination_agent_id)
                  app.db.tasks (λ r. refl),
              ==_self frame.task_id,
              held.found,
            )
            refl,
        λ n.
            rw
              (
                find-update frame.task_id other (handed_to frame.destination_agent_id) app.db.tasks
                    (λ r. refl),
                n,
              )
              refl,
        refl,
      )
