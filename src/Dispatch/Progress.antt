-- ===== src/Dispatch/Progress.antt =====
-- Who may emit Progress for a task, and whom it reaches.
use backplaned_agents.Prelude.{
  ◌==◌, nat_eq, list_eq, option_eq, Text, text_iff, lookup, ◌≡◌, refl, sym, ap, ◌∙◌, ◌≢◌, inl, inr,
  true, false, some, [], ◌∷◌, if◌then◌else◌, Bool-cases, Option-cases, some_inj,
}
use backplaned_agents.State.{is_terminal, TaskRow, Body, find_task}
use backplaned_agents.Delivery.Given.{IsGiven, fanout_one-IsGiven}
use backplaned_agents.Lru.{get_item}
use backplaned_agents.Delivery.{fanout_frame}
use backplaned_agents.Tasks.App.{App, progress_frame}
use backplaned_agents.Dispatch.{forward_progress, back_filled, handle_progress}

-- what the cache says of a task is what its row says
abbrev pub IsCoherent : App → Text → Type 0
IsCoherent app task_id =
    (entry : Text × Text)
    → lookup task_id app.caller_agent_cache.entries ≡ some entry
    → (row : TaskRow) × (find_task task_id app.db.tasks ≡ some row)
      × (entry ≡ (row.caller_agent_id, row.active_agent_id))

module _ (app : App) (agent_id task_id : Text) (event : Body) where
  forward-hub :
      (app' : App) (caller active : Text)
      → app'.hub ≡ app.hub
      → (forward_progress app' agent_id task_id event (caller, active)).hub ≡ (
          if agent_id == active
          then (fanout_frame app.hub (caller ∷ []) (progress_frame task_id event)).0
          else app.hub)
  unfolding forward_progress
  forward-hub app' caller active same = elim (Bool-cases (agent_id == active)) [
    | inl y ↦ rw y (ap (λ h. (fanout_frame h (caller ∷ []) (progress_frame task_id event)).0) same)
    | inr n ↦ rw n same
  ]

  filled-hub : (row : TaskRow) → (back_filled app task_id row).hub ≡ app.hub
  unfolding back_filled
  filled-hub row = elim (Bool-cases (is_terminal row.state)) [
    | inl y ↦ rw y refl
    | inr n ↦ rw n refl
  ]

  -- what the call does to the sockets
  progress-hub :
      (row : TaskRow)
      → find_task task_id app.db.tasks ≡ some row
      → IsCoherent app task_id
      → (handle_progress app agent_id task_id event).hub ≡ (
          if agent_id == row.active_agent_id
          then (fanout_frame app.hub (row.caller_agent_id ∷ []) (progress_frame task_id event)).0
          else app.hub)
  unfolding handle_progress get_item
  progress-hub row found coherent =
      elim (Option-cases (lookup task_id app.caller_agent_cache.entries)) [
        | inl e ↦
            rw (e, found, handle_progress)
              (forward-hub (back_filled app task_id row) row.caller_agent_id row.active_agent_id
                (filled-hub row))
        | inr (entry, e) ↦
            let (row', found', same) = coherent entry e in
            let is_row : row' ≡ row = some_inj (sym found' ∙ found) in
            rw (e, handle_progress)
              (rw (same ∙ ap (λ x. (x.caller_agent_id, x.active_agent_id)) is_row)
                (forward-hub _ row.caller_agent_id row.active_agent_id refl))
      ]

  from_other :
      (row : TaskRow)
      → find_task task_id app.db.tasks ≡ some row
      → IsCoherent app task_id
      → (agent_id == row.active_agent_id) ≡ false
      → (handle_progress app agent_id task_id event).hub ≡ app.hub
  from_other row found coherent n = rw n at (progress-hub row found coherent)

  from_caller :
      (row : TaskRow)
      → find_task task_id app.db.tasks ≡ some row
      → IsCoherent app task_id
      → (agent_id == row.active_agent_id) ≡ true
      → IsGiven app.hub
          (handle_progress app agent_id task_id event).hub
          row.caller_agent_id
          (progress_frame task_id event)
  unfolding fanout_frame
  from_caller row found coherent y =
      rw (rw y at (progress-hub row found coherent))
        (fanout_one-IsGiven app.hub row.caller_agent_id (progress_frame task_id event))

  -- Where the cache agrees with the row of the task, a Progress of the agent that executes the task now
  -- is appended once to the outbox of the caller's socket, if the caller is connected and its outbox has
  -- room, and no other socket changes; a Progress of any other sender changes no socket.
  pub progress_from_executor :
      (row : TaskRow)
      → find_task task_id app.db.tasks ≡ some row
      → IsCoherent app task_id
      → let hub' = (handle_progress app agent_id task_id event).hub in
        (agent_id ≡ row.active_agent_id
          → IsGiven app.hub hub' row.caller_agent_id (progress_frame task_id event))
        × (agent_id ≢ row.active_agent_id → hub' ≡ app.hub)
  progress_from_executor row found coherent = (
    λ same. from_caller row found coherent ((text_iff agent_id row.active_agent_id).1 same),
    λ other. elim (Bool-cases (agent_id == row.active_agent_id)) [
      | inl y ↦ absurd (other ((text_iff agent_id row.active_agent_id).0 y))
      | inr n ↦ from_other row found coherent n
    ],
  )
