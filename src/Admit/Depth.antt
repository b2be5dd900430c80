-- ===== src/Admit/Depth.antt =====
-- How deep a tree of tasks can grow.
use backplaned_agents.Prelude.{
  ◌==◌, nat_eq, list_eq, option_eq, Text, text_iff, ℕ, zero, suc, ◌≤◌, ◌<◌, ◌≡◌, refl, sym, ap, ◌∙◌,
  ◌⊎◌, inl, inr, Option, none, some, List, [], ◌∷◌, ◌++◌, map, arith, Bool-cases, Option-cases,
}
use backplaned_agents.State.{TaskRow, Db, find_task}
use backplaned_agents.Tasks.App.{NewTaskFrame}
use backplaned_agents.Tasks.Delegate.{handed_to}
use backplaned_agents.Admit.Queries.{new_row, ancestors, count_task_chain_depth}
use backplaned_agents.Admit.Guards.{AdmitSetting, Router, check_depth}
use backplaned_agents.Admit.Admission.{goes_on, check_admission, open_task}
use backplaned_agents.Admit.Frozen.{frozen, frozen-attempt, frozen_update, ancestors-frozen}
use backplaned_agents.Admit.Created.{IsForest, still_found}
use backplaned_agents.Admit.Steps.{
  Step, Steps, moves, hands_over, creates, stay, step, IsSound, Step-IsSound,
}
use backplaned_agents.Admit.Lifecycle.{Call, calls, calls-Steps}
use backplaned_agents.Admit.History.{tables-IsSound, Steps-keep_row}
use backplaned_agents.Admit.Waiting.{waits_with, new_task_waits}
use backplaned_agents.Admit.Outcomes.{let_through, unless_inl}

pub no_parent : (fuel : ℕ) (rows : List TaskRow) (user : Text) → ancestors fuel rows user none ≡ 0
unfolding ancestors
no_parent zero rows user = refl
no_parent (suc fuel) rows user = refl

-- a table that grows keeps the depth of its tasks
append_keeps_depth :
    (fuel : ℕ) (rows : List TaskRow) (new : TaskRow) (user id : Text) (row : TaskRow)
    → IsForest rows
    → find_task id rows ≡ some row
    → ancestors fuel (rows ++ new ∷ []) user (some id) ≡ ancestors fuel rows user (some id)
unfolding ancestors
append_keeps_depth zero rows new user id row forest found = refl
append_keeps_depth (suc fuel) rows new user id row forest found =
    rw (still_found id rows new row found, found, ancestors)
      (elim (Bool-cases (row.user_id == user)) [
        | inr n ↦ rw n refl
        | inl y ↦ elim (Option-cases row.parent_task_id) [
          | inl e ↦
              rw (y, e)
                (ap suc (no_parent fuel (rows ++ new ∷ []) user ∙ sym (no_parent fuel rows user)))
          | inr (p, e) ↦
              let (parent, f, u, r) = (forest id row found).parent_of p e in
              rw (y, e) (ap suc (append_keeps_depth fuel rows new user p parent forest f))
        ]
      ])

same_depth :
    (fuel : ℕ) (rows rows' : List TaskRow) (user : Text) (id : Option Text)
    → map frozen rows' ≡ map frozen rows
    → ancestors fuel rows' user id ≡ ancestors fuel rows user id
same_depth fuel rows rows' user id same =
    sym (ancestors-frozen fuel rows' user id)
    ∙ ap (λ x. ancestors fuel x user id) same
    ∙ ancestors-frozen fuel rows user id

Step-keeps_depth :
    {db db' : Db}
    → Step db db'
    → (fuel : ℕ) (user id : Text) (row : TaskRow) → IsForest db.tasks
    → find_task id db.tasks ≡ some row
    → ancestors fuel db'.tasks user (some id) ≡ ancestors fuel db.tasks user (some id)
Step-keeps_depth {db} (moves more) fuel user id row forest found =
    same_depth fuel db.tasks _ user (some id) (frozen-attempt more db)
Step-keeps_depth {db} (hands_over frame caller held) fuel user id row forest found =
    same_depth fuel db.tasks _ user (some id)
      (frozen_update frame.task_id (handed_to frame.destination_agent_id) db.tasks (λ r. refl))
Step-keeps_depth {db} (creates task_id caller t db' new made) fuel user id row forest found =
    rw made.appended
      (append_keeps_depth fuel db.tasks (new_row task_id made.root t) user id row forest found)

Steps-keep_depth :
    {db db' : Db}
    → Steps db db'
    → (fuel : ℕ) (user id : Text) (row : TaskRow) → IsSound db
    → find_task id db.tasks ≡ some row
    → ancestors fuel db'.tasks user (some id) ≡ ancestors fuel db.tasks user (some id)
Steps-keep_depth stay fuel user id row sound found = refl
Steps-keep_depth {db} (step one more) fuel user id row sound found =
    let (now, found', e) = Steps-keep_row (step one stay) id row (row, found, refl) in
    Steps-keep_depth more fuel user id now (Step-IsSound one sound) found'
    ∙ Step-keeps_depth one fuel user id row sound.forest found

one_deeper :
    (fuel : ℕ) (rows : List TaskRow) (user id p : Text) (row : TaskRow)
    → find_task id rows ≡ some row
    → row.user_id ≡ user
    → row.parent_task_id ≡ some p
    → ancestors (suc fuel) rows user (some id) ≡ suc (ancestors fuel rows user (some p))
unfolding ancestors
one_deeper fuel rows user id p row found u e =
    rw (found, (text_iff row.user_id user).1 u, e, ancestors) refl

-- a chain of `n` tasks of the user that ends with the task `id`, read from the parents that the rows
-- name
pub data HasChain (rows : List TaskRow) (user : Text) : ℕ → Text → Type 0 where
  alone :
      {id : Text} (row : TaskRow)
      → find_task id rows ≡ some row
      → row.user_id ≡ user
      → HasChain rows user 1 id
  under :
      {n : ℕ} {id parent : Text} (row : TaskRow)
      → find_task id rows ≡ some row
      → row.user_id ≡ user
      → row.parent_task_id ≡ some parent
      → HasChain rows user n parent
      → HasChain rows user (suc n) id

-- the count of the rows is no less than a chain is long, unless it has used up its rounds
pub chain_counted :
    (fuel n : ℕ) (rows : List TaskRow) (user id : Text)
    → HasChain rows user n id
    → (n ≤ ancestors fuel rows user (some id)) ⊎ (fuel ≤ ancestors fuel rows user (some id))
unfolding ancestors
chain_counted zero n rows user id chain = inr (omega arith)
chain_counted (suc fuel) n rows user id (alone row found u) =
    inl (rw (found, (text_iff row.user_id user).1 u, ancestors) (omega arith))
chain_counted (suc fuel) n rows user id (under {parent = parent} row found u p chain) =
    elim (chain_counted fuel _ rows user parent chain) [
      | inl h ↦ inl (omega (arith, one_deeper fuel rows user id parent row found u p, h))
      | inr h ↦ inr (omega (arith, one_deeper fuel rows user id parent row found u p, h))
    ]

module _ {Schema : Type 0} (setting : AdmitSetting Schema) where
  pub depth_checked :
      (db : Db) (frame : NewTaskFrame) (parent : Text)
      → frame.parent_task_id ≡ some parent
      → check_depth setting db frame ≡ inl tt
      → count_task_chain_depth db frame.user_id parent < setting.spawn_max_depth
  unfolding check_depth
  depth_checked db frame parent e h =
      let h1 = rw (e, check_depth) at h in ground (arith, unless_inl _ _ h1)

  -- A spawn whose parent is known when its depth is checked ends no chain of more than
  -- `spawn_max_depth` tasks, which the settings keep at 64 at most, whatever sequence of the modelled
  -- calls comes between the check and the new row.
  pub spawn_depth_bounded :
      (r : Router) (more : List Call) (frame : NewTaskFrame) (caller level task_id cid : Text)
      (now later : ℕ) (row : TaskRow) (fut : ℕ) (parent : Text) (parent_row : TaskRow) (n : ℕ)
      → setting.spawn_max_depth ≤ 64
      → IsSound r.app.db
      → frame.parent_task_id ≡ some parent
      → find_task parent r.app.db.tasks ≡ some parent_row
      → (check_admission setting r frame caller now).1 ≡ goes_on level
      → let r' = calls setting r more in
        (open_task setting r' frame caller level task_id cid later).1 ≡ goes_on (row, fut)
        → HasChain
            (open_task setting r' frame caller level task_id cid later).0.app.db.tasks
            frame.user_id
            n
            task_id
        → n ≤ setting.spawn_max_depth
  unfolding count_task_chain_depth ancestors
  spawn_depth_bounded r more frame caller level task_id cid now later row fut parent parent_row n
        small sound e known checked waits chain =
      let (unknown, c, q, d) = let_through setting frame caller level r now checked in
      let r' = calls setting r more in
      let before = depth_checked r.app.db frame parent e d in
      let kept =
        Steps-keep_depth (calls-Steps setting more r) 64 frame.user_id parent parent_row sound
          known in
      let (p, is_row, db') =
        waits_with setting r' frame caller level task_id cid later row fut waits in
      let (fresh, found, queued, appended, logged) =
        new_task_waits setting r' frame caller level task_id cid later row fut waits in
      let (parent_now, there, same) =
        Steps-keep_row (calls-Steps setting more r) parent parent_row (parent_row, known, refl) in
      let is_new = sym is_row ∙ p.made.row_is in
      let deeper =
        one_deeper 64 _ frame.user_id task_id parent row found (ap (λ x. x.user_id) is_new)
          (ap (λ x. x.parent_task_id) is_new ∙ e) in
      let shorter =
        ap (λ rows. ancestors 64 rows frame.user_id (some parent)) appended
        ∙ append_keeps_depth 64 r'.app.db.tasks row frame.user_id parent parent_now
            (tables-IsSound setting r more sound).forest there in
      elim (chain_counted 65 n _ frame.user_id task_id chain) [
        | inl h ↦ omega (arith, h, deeper, shorter, kept, before)
        | inr h ↦ absurd (omega (arith, h, small, deeper, shorter, kept, before))
      ]
