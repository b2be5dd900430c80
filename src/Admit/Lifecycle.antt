-- ===== src/Admit/Lifecycle.antt =====
-- What the handlers of a router do to its tables, call by call: each is a sequence of the steps of
-- Admit/Steps.antt.
use backplaned_agents.Prelude.{
  ◌==◌, nat_eq, list_eq, option_eq, Text, ℕ, ◌≡◌, refl, sym, ap, ◌∙◌, inl, inr, Bool, List, [], ◌∷◌,
  ◌++◌, map, arith, if◌then◌else◌, Bool-cases, Option-cases,
}
use mathlib.Core.Path.{subst}
use backplaned_agents.State.{TaskRow, Db, running}
use backplaned_agents.Delivery.{Sent, not_connected, queue_full, queued, awaiting}
use backplaned_agents.Tasks.App.{App, NewTaskFrame}
use backplaned_agents.Tasks.Delegate.{
  Answer, acks, times_out, lost, begin_delegation, finish_delegation,
}
use backplaned_agents.Tasks.Handover.{
  sum_cases, begin_writes_nothing, waited, held_flips, finish_accepted, finish_cases,
}
use backplaned_agents.Tasks.Reaches.{
  Reaches, Handler, handle, handle-Reaches, fail_task-Reaches, Reaches-transition,
}
use backplaned_agents.Admit.Queries.{Session}
use backplaned_agents.Admit.Guards.{AdmitSetting, Router}
use backplaned_agents.Admit.Admission.{
  goes_on, returns, refuses, check_admission, dispatch_task, open_task, sent_off,
  disconnected_failure, cache_caller_agent, admitted_event,
}
use backplaned_agents.Admit.Closing.{
  close_admission, settle_answer, start_running, accepted_details, rejected_failure,
  timeout_failure, bounded_reason,
}
use backplaned_agents.Admit.Persisted.{persist_cases}
use backplaned_agents.Admit.Guards.{check_call, check_quota, check_depth}
use backplaned_agents.Admit.Admission.{known_task}
use backplaned_agents.Admit.Steps.{Steps, moves, hands_over, creates, stay, step, Steps-trans}

-- a call of the router: the handlers that end tasks, both halves of a hand-over, the three parts of
-- an admission, and a session that opens, closes or opens again. Left out are the purge of a session,
-- which deletes its tasks, and the renaming of an evicted agent.
pub data Call : Type 0 where
  handles : Handler → Call
  begins_delegation : NewTaskFrame → Text → Text → ℕ → Call
  finishes_delegation : NewTaskFrame → Text → Text → Answer → Call
  checks : NewTaskFrame → Text → ℕ → Call
  opens : NewTaskFrame → Text → Text → Text → Text → ℕ → Call
  closes : TaskRow → NewTaskFrame → Text → Answer → Call
  opens_session : Session → Call
  sets_closed : Text → Bool → Call

-- `close_session` and `reopen_session`
abbrev pub set_closed : Text → Bool → List Session → List Session
set_closed session_id closed sessions =
    map (λ s. if s.session_id == session_id then record s { closed = closed } else s) sessions

module _ {Schema : Type 0} (setting : AdmitSetting Schema) where
  unfoldable pub call : Router → Call → Router
  unfolding handle begin_delegation finish_delegation check_admission open_task close_admission
  call r (handles h) = record r { app = handle r.app h }
  call r (begins_delegation frame caller cid now) = record r {
    app = (begin_delegation r.app setting.common frame caller cid now).0;
  }
  call r (finishes_delegation frame caller cid answer) = record r {
    app = (finish_delegation r.app frame caller cid answer).0;
  }
  call r (checks frame caller now) = (check_admission setting r frame caller now).0
  call r (opens frame caller level task_id cid now) =
      (open_task setting r frame caller level task_id cid now).0
  call r (closes row frame cid answer) = record r {
    app = (close_admission r.app row frame cid answer).0;
  }
  call r (opens_session session) = record r { sessions = r.sessions ++ session ∷ [] }
  call r (sets_closed session_id closed) = record r {
    sessions = set_closed session_id closed r.sessions;
  }

  unfoldable pub calls : Router → List Call → Router
  unfolding call
  calls r [] = r
  calls r (c ∷ more) = calls (call r c) more

Reaches-Steps : {a b : Db} → Reaches a b → Steps a b
Reaches-Steps {a} (more, e) = subst (Steps a) (sym e) (step (moves more) stay)

Steps-same : {a b : Db} → b ≡ a → Steps a b
Steps-same {a} e = subst (Steps a) (sym e) stay

finish-Steps :
    (app : App) (frame : NewTaskFrame) (caller cid : Text) (answer : Answer)
    → Steps app.db (finish_delegation app frame caller cid answer).0.db
finish-Steps app frame caller cid answer = elim (finish_cases app frame caller cid answer) [
  | inl (ok, held) ↦
      let e =
        finish_accepted app frame caller cid answer ok
        ∙ held_flips (waited app frame cid) frame caller (record {
          row = held.row;
          found = held.found;
          of_user = held.of_user;
          unended = held.unended;
          executes = held.executes;
        }) in
      subst (Steps app.db) (sym (ap (λ r. r.0.db) e)) (step (hands_over frame caller held) stay)
  | inr (e, f) ↦ Steps-same (ap (λ r. r.0.db) f)
]

close-Steps :
    (app : App) (row : TaskRow) (frame : NewTaskFrame) (cid : Text) (answer : Answer)
    → Steps app.db (close_admission app row frame cid answer).0.db
unfolding close_admission settle_answer start_running
close-Steps app row frame cid (acks ack) = elim (Bool-cases ack.accepted) [
  | inl y ↦ rw y (
      Reaches-Steps (
        Reaches-transition app.db row.task_id running
          (accepted_details frame.destination_agent_id)))
  | inr n ↦ rw n (
      Reaches-Steps
        (fail_task-Reaches _ row.task_id (rejected_failure frame.user_id (bounded_reason ack))))
]
close-Steps app row frame cid times_out =
    Reaches-Steps (fail_task-Reaches _ row.task_id (timeout_failure frame.user_id))
close-Steps app row frame cid lost = stay

sent_off-Steps :
    (app : App) (row : TaskRow) (frame : NewTaskFrame) (sent : Sent)
    → Steps app.db (sent_off app row frame sent).0.db
sent_off-Steps app row frame not_connected =
    Reaches-Steps (fail_task-Reaches app row.task_id (disconnected_failure frame.user_id))
sent_off-Steps app row frame queue_full = stay
sent_off-Steps app row frame queued = stay
sent_off-Steps app row frame (awaiting fut) = stay

module _ {Schema : Type 0} (setting : AdmitSetting Schema) where
  dispatch-Steps :
      (app : App) (row : TaskRow) (frame : NewTaskFrame) (caller level cid : Text) (now : ℕ)
      → Steps app.db (dispatch_task setting app row frame caller level cid now).0.db
  unfolding dispatch_task cache_caller_agent
  dispatch-Steps app row frame caller level cid now = sent_off-Steps _ row frame _

  open-Steps :
      (r : Router) (frame : NewTaskFrame) (caller level task_id cid : Text) (now : ℕ)
      → Steps r.app.db (open_task setting r frame caller level task_id cid now).0.app.db
  unfolding open_task
  open-Steps r frame caller level task_id cid now =
      elim (persist_cases setting r.app.db r.sessions frame caller task_id now) [
        | inl p ↦
            rw (p.result, open_task)
              (rw (ap (λ x. x.0) p.result) (
                step (creates task_id caller _ p.table p.row p.made) (
                  dispatch-Steps
                    (record r.app {
                      db = record p.table {
                        events = p.table.events ++ admitted_event p.row.task_id caller ∷ [];
                      };
                    })
                    p.row frame caller level cid now)))
        | inr (goes_on row, e, ends) ↦ absurd (ground (arith, ends))
        | inr (returns result, e, ends) ↦ rw (e, open_task) stay
        | inr (refuses x, e, ends) ↦ rw (e, open_task) stay
      ]

  check-db :
      (r : Router) (frame : NewTaskFrame) (caller : Text) (now : ℕ)
      → (check_admission setting r frame caller now).0.app ≡ r.app
  unfolding check_admission
  check-db r frame caller now = elim (Option-cases (known_task r.app.db frame caller)) [
    | inr (row, e) ↦ rw (e, check_admission) refl
    | inl e ↦ elim (sum_cases (check_call setting r.sessions frame caller)) [
      | inr (x, c) ↦ rw (e, c, check_admission) refl
      | inl (level, c) ↦
          elim (sum_cases (check_quota setting r.admit_quota frame.user_id level now).1) [
            | inr (x, q) ↦ rw (e, c, check_admission) (rw q refl)
            | inl (u, q) ↦ elim (sum_cases (check_depth setting r.app.db frame)) [
              | inr (x, d) ↦ rw (e, c, check_admission) (rw q (rw d refl))
              | inl (v, d) ↦ rw (e, c, check_admission) (rw q (rw d refl))
            ]
          ]
    ]
  ]

  call-Steps : (r : Router) (c : Call) → Steps r.app.db (call setting r c).app.db
  unfolding call
  call-Steps r (handles h) = Reaches-Steps (handle-Reaches r.app h)
  call-Steps r (begins_delegation frame caller cid now) =
      Steps-same (begin_writes_nothing r.app setting.common frame caller cid now)
  call-Steps r (finishes_delegation frame caller cid answer) =
      finish-Steps r.app frame caller cid answer
  call-Steps r (checks frame caller now) =
      Steps-same (ap (λ app. app.db) (check-db r frame caller now))
  call-Steps r (opens frame caller level task_id cid now) =
      open-Steps r frame caller level task_id cid now
  call-Steps r (closes row frame cid answer) = close-Steps r.app row frame cid answer
  call-Steps r (opens_session session) = stay
  call-Steps r (sets_closed session_id closed) = stay

  -- Whatever the calls, the tables come about by steps.
  pub calls-Steps : (more : List Call) (r : Router) → Steps r.app.db (calls setting r more).app.db
  unfolding calls
  calls-Steps [] r = stay
  calls-Steps (c ∷ more) r = Steps-trans (call-Steps r c) (calls-Steps more (call setting r c))
