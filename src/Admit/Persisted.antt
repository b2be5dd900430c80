-- ===== src/Admit/Persisted.antt =====
-- The transaction of `admit_task`: it writes the row and its event, or nothing.
use backplaned_agents.Prelude.{
  nat_eq, list_eq, option_eq, Text, ℕ, ◌≡◌, refl, ◌⊎◌, inl, inr, Bool, true, false, some, List, [],
  ◌∷◌, ◌++◌, Option-cases,
}
use backplaned_agents.State.{TaskRow, Db, insert_event}
use backplaned_agents.Tasks.App.{NewTaskFrame}
use backplaned_agents.Tasks.Handover.{sum_cases}
use backplaned_agents.Admit.Queries.{
  Session, NewTask, CreateError, create_task, find_idempotent, cross_user, same_key, same_id,
  late_deadline,
}
use backplaned_agents.Admit.Guards.{AdmitSetting, check_session}
use backplaned_agents.Admit.Admission.{
  Progress, goes_on, returns, refuses, persist_task, new_task, deadline_from, admitted_event,
  create_error, join_racer,
}
use backplaned_agents.Admit.Created.{IsCreated, created}

-- does the call end here?
abbrev pub stops {ℓ} : {A : Type ℓ} → Progress A → Bool
stops (goes_on a) = false
stops (returns result) = true
stops (refuses e) = true

module _ {Schema : Type 0} (setting : AdmitSetting Schema) (db : Db) (sessions : List Session)
    (frame : NewTaskFrame) (caller task_id : Text) (now : ℕ) where
  abbrev pub wanted : NewTask
  wanted = new_task frame caller (some (deadline_from setting frame now)) now

  racer_stops : (frame' : NewTaskFrame) → stops (join_racer setting db frame' caller) ≡ true
  unfolding join_racer
  racer_stops frame' = elim (Option-cases frame'.idempotency_key) [
    | inl e ↦ rw (e, join_racer) refl
    | inr (key, e) ↦ elim (Option-cases (find_idempotent caller frame'.user_id key db.tasks)) [
      | inl f ↦ rw (e, join_racer) (rw f refl)
      | inr (row, f) ↦ rw (e, join_racer) (rw f refl)
    ]
  ]

  error_stops : (e : CreateError) → stops (create_error setting db frame caller e) ≡ true
  error_stops cross_user = refl
  error_stops same_key = racer_stops frame
  error_stops same_id = refl
  error_stops late_deadline = refl

  -- the row is written, and its event
  pub record IsPersisted : Type 0 where
    pub row : TaskRow
    pub table : Db
    pub made : IsCreated db task_id wanted table row
    pub in_session : check_session sessions frame ≡ inl tt
    pub result : persist_task setting db sessions frame caller task_id now ≡ (
      record table { events = table.events ++ admitted_event row.task_id caller ∷ [] },
      goes_on row,
    )

  pub persist_cases :
      IsPersisted
      ⊎ ((p : Progress TaskRow) × (persist_task setting db sessions frame caller task_id now
            ≡ (db, p))
          × (stops p ≡ true))
  unfolding persist_task insert_event
  persist_cases = elim (sum_cases (check_session sessions frame)) [
    | inr (e, s) ↦ inr (refuses e, rw (s, persist_task) refl, refl)
    | inl (u, s) ↦ elim (sum_cases (create_task db task_id wanted).1) [
      | inr (e, c) ↦
          inr (
            create_error setting db frame caller e,
            rw (s, persist_task) (rw c refl),
            error_stops e,
          )
      | inl (row, c) ↦ inl (record {
        row = row;
        table = (create_task db task_id wanted).0;
        made = created db task_id wanted row c;
        in_session = s;
        result = rw (s, persist_task) (rw c refl);
      })
    ]
  ]
