-- ===== src/Dispatch/Cancels.antt =====
-- Who may cancel a task.
use backplaned_agents.Prelude.{
  ◌==◌, nat_eq, list_eq, option_eq, Text, text_iff, ℕ, zero, suc, ◌≤◌, ◌≡◌, refl, ◌⊎◌, inl, inr,
  Bool, true, ◌&&◌, ◌||◌, some, List, arith, Bool-cases, Option-cases,
}
use backplaned_agents.State.{TaskRow, find_task}
use backplaned_agents.Tasks.App.{App}
use backplaned_agents.Tasks.Cancelled.{HasEnded}
use backplaned_agents.Tasks.Subtree.{IsBelow, cancel_ends_subtree}
use backplaned_agents.Dispatch.{assigned_above, task_has_ancestor_with_agent, cancel_authorised}

-- the task, or one of its ancestors at most `d` above it, is assigned to the agent, all of them tasks
-- of the user
pub data IsAssignedAbove (rows : List TaskRow) (user_id agent_id : Text) : ℕ → Text → Type 0 where
  here :
      {d : ℕ} {id : Text} (row : TaskRow)
      → find_task id rows ≡ some row
      → row.user_id ≡ user_id
      → row.agent_id ≡ agent_id
      → IsAssignedAbove rows user_id agent_id d id
  above :
      {d : ℕ} {id : Text} (row : TaskRow) (parent : Text)
      → find_task id rows ≡ some row
      → row.user_id ≡ user_id
      → row.parent_task_id ≡ some parent
      → IsAssignedAbove rows user_id agent_id d parent
      → IsAssignedAbove rows user_id agent_id (suc d) id

both_true : (a b : Bool) → (a && b) ≡ true → (a ≡ true) × (b ≡ true)
both_true a b h = (ground (arith, h), ground (arith, h))

or_true : (a : Bool) → (a || true) ≡ true
or_true a = ground arith

module _ (rows : List TaskRow) (user_id agent_id : Text) where
  -- what a row that the query accepts has: the agent itself, or a parent that is accepted
  accepted :
      (d : ℕ) (id : Text)
      → assigned_above (suc d) rows user_id agent_id (some id) ≡ true
      → (row : TaskRow) × (find_task id rows ≡ some row)
        × (row.user_id ≡ user_id)
        × ((row.agent_id ≡ agent_id)
            ⊎ (assigned_above d rows user_id agent_id row.parent_task_id ≡ true))
  unfolding assigned_above
  accepted d id h = elim (Option-cases (find_task id rows)) [
    | inl e ↦ absurd (ground (arith, rw (e, assigned_above) at h))
    | inr (row, e) ↦
        let (u, rest) = both_true (row.user_id == user_id) _ (rw (e, assigned_above) at h) in
        (
          row,
          e,
          (text_iff row.user_id user_id).0 u,
          elim (Bool-cases (row.agent_id == agent_id)) [
            | inl y ↦ inl ((text_iff row.agent_id agent_id).0 y)
            | inr n ↦ inr (rw n at rest)
          ],
        )
  ]

  query_sound :
      (d : ℕ) (id : Text)
      → assigned_above (suc d) rows user_id agent_id (some id) ≡ true
      → IsAssignedAbove rows user_id agent_id d id
  unfolding assigned_above
  query_sound zero id h =
      let (row, e, u, why) = accepted zero id h in
      elim why [ inl a ↦ here row e u a | inr more ↦ absurd (ground (arith, more)) ]
  query_sound (suc d) id h =
      let (row, e, u, why) = accepted (suc d) id h in
      elim why [
        | inl a ↦ here row e u a
        | inr more ↦ elim (Option-cases row.parent_task_id) [
          | inl p ↦ absurd (ground (arith, rw p at more))
          | inr (parent, p) ↦ above row parent e u p (query_sound d parent (rw p at more))
        ]
      ]

  query_complete :
      {d : ℕ} {id : Text}
      → IsAssignedAbove rows user_id agent_id d id
      → assigned_above (suc d) rows user_id agent_id (some id) ≡ true
  unfolding assigned_above
  query_complete (here row e u a) =
      rw
        (
          e,
          (text_iff row.user_id user_id).1 u,
          (text_iff row.agent_id agent_id).1 a,
          assigned_above,
        )
        refl
  query_complete (above row parent e u p more) =
      rw (e, (text_iff row.user_id user_id).1 u, p, assigned_above)
        (rw (query_complete more) (or_true (row.agent_id == agent_id)))

module _ (app : App) (agent_id task_id reason : Text) where
  -- A Cancel of a task in the table changes nothing, unless its sender is assigned the task or one of
  -- its ancestors at most 64 above it, all of them tasks of the same user.
  pub cancel_needs_assignee :
      (row : TaskRow)
      → find_task task_id app.db.tasks ≡ some row
      → (cancel_authorised app agent_id task_id reason ≡ app)
        ⊎ IsAssignedAbove app.db.tasks row.user_id agent_id 64 task_id
  unfolding cancel_authorised task_has_ancestor_with_agent
  cancel_needs_assignee row found =
      elim (Bool-cases (task_has_ancestor_with_agent app.db task_id agent_id row.user_id)) [
        | inl y ↦ inr (query_sound app.db.tasks row.user_id agent_id 64 task_id y)
        | inr n ↦ inl (rw (found, n, cancel_authorised) refl)
      ]

  -- A Cancel of an agent that is assigned the task, or an ancestor at most 64 above it, ends the task
  -- and every task of the same user in the table that stands at most 65 levels below it.
  pub assignee_cancels :
      (row other_row : TaskRow) (other : Text) (depth : ℕ)
      → find_task task_id app.db.tasks ≡ some row
      → IsAssignedAbove app.db.tasks row.user_id agent_id 64 task_id
      → depth ≤ 65
      → IsBelow app.db.tasks row.user_id task_id depth other
      → find_task other app.db.tasks ≡ some other_row
      → HasEnded other (cancel_authorised app agent_id task_id reason).db
  unfolding cancel_authorised task_has_ancestor_with_agent
  assignee_cancels row other_row other depth found assigned few below there =
      rw (found, cancel_authorised)
        (rw (query_complete app.db.tasks row.user_id agent_id assigned) (
          cancel_ends_subtree app task_id row.user_id reason agent_id other depth other_row few
            below there))
