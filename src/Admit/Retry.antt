-- ===== src/Admit/Retry.antt =====
-- A retry of a NewTask with its idempotency key.
use backplaned_agents.Prelude.{
  nat_eq, list_eq, option_eq, Text, ==_self, ℕ, ◌≡◌, refl, sym, ap, ◌∙◌, inl, inr, true, some, List,
  ◌∷◌, arith, Option-cases,
}
use backplaned_agents.State.{TaskRow, Db, find_task}
use backplaned_agents.Tasks.App.{NewTaskFrame}
use backplaned_agents.Tasks.Replay.{AdmitResult, idempotent_admit_result}
use backplaned_agents.Admit.Queries.{NewTask, new_row, find_idempotent, has_key}
use backplaned_agents.Admit.Guards.{AdmitSetting, Router}
use backplaned_agents.Admit.Admission.{
  goes_on, returns, new_task, deadline_from, open_task, known_task, check_admission,
}
use backplaned_agents.Admit.Frozen.{frozen}
use backplaned_agents.Admit.Created.{found_by_key}
use backplaned_agents.Admit.Ids.{found_has_key}
use backplaned_agents.Admit.Steps.{IsSound}
use backplaned_agents.Admit.Lifecycle.{Call, opens, call, calls}
use backplaned_agents.Admit.History.{tables-IsSound, task_never_lost}
use backplaned_agents.Admit.Waiting.{waits_with, new_task_waits}

-- in a sound table, the lookup by the key of a task finds that task
lookup_finds :
    (db : Db) (id caller user key : Text) (row : TaskRow)
    → IsSound db
    → find_task id db.tasks ≡ some row
    → has_key caller user key row ≡ true
    → (known : TaskRow) × (find_idempotent caller user key db.tasks ≡ some known)
      × (known.task_id ≡ id)
lookup_finds db id caller user key row sound found k =
    elim (Option-cases (find_idempotent caller user key db.tasks)) [
      | inl e ↦ absurd (ground (arith, found_by_key caller user key id db.tasks row found k, e))
      | inr (known, e) ↦
          let (here, k') = found_has_key caller user key db.tasks known sound.ids e in
          (known, e, sound.keys known.task_id id caller user key known row here found k' k)
    ]

new_row-has_key :
    (t : NewTask) (id root key : Text)
    → t.idempotency_key ≡ some key
    → has_key t.caller_agent_id t.user_id key (new_row id root t) ≡ true
new_row-has_key t id root key e =
    rw (e, ==_self t.caller_agent_id, ==_self t.user_id, ==_self key) refl

module _ {Schema : Type 0} (setting : AdmitSetting Schema) (frame : NewTaskFrame) (caller : Text)
    (c : ℕ) (key : Text) where
  answers_known :
      (r : Router) (now : ℕ) (known : TaskRow)
      → frame.idempotency_key ≡ some (c ∷ key)
      → find_idempotent caller frame.user_id (c ∷ key) r.app.db.tasks ≡ some known
      → check_admission setting r frame caller now
        ≡ (r, returns (idempotent_admit_result setting.rehydrate known))
  unfolding check_admission known_task
  answers_known r now known keyed found = rw (keyed, check_admission, known_task) (rw found refl)

  -- Once a request with an idempotency key has got its row, then behind any sequence of the calls of
  -- Admit/Lifecycle (admissions, hand-overs, results, cancellations, failures, disconnects, sweeps, and
  -- sessions that open and close; neither the purge of a session nor the renaming of an evicted agent),
  -- the same request of the same caller is answered with the task of the first, and changes nothing.
  pub retry_joins :
      (r : Router) (level task_id cid : Text) (now later : ℕ) (row : TaskRow) (fut : ℕ)
      (more : List Call)
      → IsSound r.app.db
      → frame.idempotency_key ≡ some (c ∷ key)
      → (open_task setting r frame caller level task_id cid now).1 ≡ goes_on (row, fut)
      → let r' = calls setting r (opens frame caller level task_id cid now ∷ more) in
        (result : AdmitResult) × (check_admission setting r' frame caller later
          ≡ (r', returns result))
        × (result.task_id ≡ task_id)
  unfolding calls call idempotent_admit_result
  retry_joins r level task_id cid now later row fut more sound keyed waits =
      let opened = opens frame caller level task_id cid now in
      let r1 = call setting r opened in
      let r' = calls setting r (opened ∷ more) in
      let sound' = tables-IsSound setting r (opened ∷ more) sound in
      let (fresh, found, q, appended, logged) =
        new_task_waits setting r frame caller level task_id cid now row fut waits in
      let (p, is_row, db') =
        waits_with setting r frame caller level task_id cid now row fut waits in
      let (now', found', same) = task_never_lost setting r1 more task_id row found in
      let (known, e, id) =
        lookup_finds r'.app.db task_id caller frame.user_id (c ∷ key) now' sound' found' (
          ap (has_key caller frame.user_id (c ∷ key))
            (same ∙ ap frozen (sym is_row ∙ p.made.row_is))
          ∙ new_row-has_key (new_task frame caller (some (deadline_from setting frame now)) now)
              task_id p.made.root (c ∷ key) keyed) in
      (idempotent_admit_result setting.rehydrate known, answers_known r' later known keyed e, id)
