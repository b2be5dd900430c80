-- ===== src/Tasks/Subtree.antt =====
-- The tasks below a task, and what a cancellation does to them.
use backplaned_agents.Prelude.{
  ◌==◌, nat_eq, list_eq, option_eq, Text, text_iff, option_text_iff, ℕ, zero, suc, ◌≤◌, ◌≡◌, refl,
  sym, ap, ◌∙◌, inl, inr, true, ◌&&◌, ◌||◌, some, List, [], ◌∷◌, ◌++◌, arith, Bool-cases, contains,
}
use backplaned_agents.State.{TaskRow, find_task}
use backplaned_agents.Tasks.App.{App}
use backplaned_agents.Tasks.Cancel.{
  max_task_tree_depth, children, children_of_each, descend, list_descendants, cancel_task,
}
use backplaned_agents.Tasks.Cancelled.{HasEnded, targets, cancel_ends_targets}
use backplaned_agents.Tasks.Failed.{ids, ids-select}

-- the task `id` is `top` itself, at depth 0, or a task of the user whose parent stands one level less
-- deep below `top`
pub data IsBelow (rows : List TaskRow) (user_id top : Text) : ℕ → Text → Type 0 where
  itself : IsBelow rows user_id top 0 top
  deeper :
      {depth : ℕ} {parent id : Text} (row : TaskRow)
      → IsBelow rows user_id top depth parent
      → find_task id rows ≡ some row
      → row.user_id ≡ user_id
      → row.parent_task_id ≡ some parent
      → IsBelow rows user_id top (suc depth) id

ids-append :
    (a b : List TaskRow) (id : Text)
    → contains (ids (a ++ b)) id ≡ (contains (ids a) id || contains (ids b) id)
ids-append [] b id = refl
ids-append (r ∷ a) b id = ground (arith, ids-append a b id)

module _ (rows : List TaskRow) (user_id : Text) where
  -- the rows that `depth` rounds below `level`
  level_at : ℕ → List TaskRow → List TaskRow
  level_at zero level = level
  level_at (suc depth) level = level_at depth (children_of_each rows user_id level)

  one_more :
      (depth : ℕ) (level : List TaskRow)
      → children_of_each rows user_id (level_at depth level) ≡ level_at (suc depth) level
  unfolding level_at
  one_more zero level = refl
  one_more (suc depth) level = one_more depth (children_of_each rows user_id level)

  child_listed :
      (parent id : Text) (row : TaskRow)
      → find_task id rows ≡ some row
      → row.user_id ≡ user_id
      → row.parent_task_id ≡ some parent
      → contains (ids (children rows user_id parent)) id ≡ true
  unfolding children
  child_listed parent id row found u p =
      ids-select (λ r. r.parent_task_id == some parent && r.user_id == user_id) rows id row found
        (rw
          (
            (option_text_iff row.parent_task_id (some parent)).1 p,
            (text_iff row.user_id user_id).1 u,
          )
          refl)

  children_listed :
      (level : List TaskRow) (parent id : Text) (row : TaskRow)
      → contains (ids level) parent ≡ true
      → find_task id rows ≡ some row
      → row.user_id ≡ user_id
      → row.parent_task_id ≡ some parent
      → contains (ids (children_of_each rows user_id level)) id ≡ true
  unfolding children_of_each
  children_listed [] parent id row c found u p = absurd (ground (arith, c))
  children_listed (r ∷ level) parent id row c found u p = elim (Bool-cases (r.task_id == parent)) [
    | inl y ↦
        let same = (text_iff r.task_id parent).0 y in
        ground (
          arith,
          ids-append (children rows user_id r.task_id) (children_of_each rows user_id level) id,
          child_listed r.task_id id row found u (p ∙ ap (λ x. some x) (sym same)),
        )
    | inr n ↦ ground (
      arith,
      ids-append (children rows user_id r.task_id) (children_of_each rows user_id level) id,
      children_listed level parent id row (rw n at c) found u p,
    )
  ]

  level_listed :
      (top : Text) (depth : ℕ) (id : Text)
      → IsBelow rows user_id top (suc depth) id
      → contains (ids (level_at depth (children rows user_id top))) id ≡ true
  unfolding level_at
  level_listed top zero id (deeper row itself found u p) = child_listed top id row found u p
  level_listed top (suc depth) id (deeper {parent = parent} row above found u p) =
      rw (sym (one_more depth (children rows user_id top)))
        (children_listed _ parent id row (level_listed top depth parent above) found u p)

  round_listed :
      (levels depth : ℕ) (level : List TaskRow) (id : Text)
      → depth ≤ levels
      → contains (ids (level_at depth level)) id ≡ true
      → contains (ids (descend rows user_id levels level)) id ≡ true
  unfolding descend level_at
  round_listed zero zero level id h c = c
  round_listed zero (suc depth) level id h c = absurd (omega (arith, h))
  round_listed (suc levels) zero level id h c = ground (
    arith,
    ids-append level (descend rows user_id levels (children_of_each rows user_id level)) id,
    c,
  )
  round_listed (suc levels) (suc depth) level id h c = ground (
    arith,
    ids-append level (descend rows user_id levels (children_of_each rows user_id level)) id,
    round_listed levels depth (children_of_each rows user_id level) id (omega (arith, h)) c,
  )

-- what stands at most 65 levels below the task is among the targets of its cancellation
pub below-targets :
    (app : App) (top user_id id : Text) (depth : ℕ)
    → depth ≤ 65
    → IsBelow app.db.tasks user_id top depth id
    → contains (targets app top user_id) id ≡ true
unfolding list_descendants
below-targets app top user_id id zero few itself = ground (arith, text_iff top top)
below-targets app top user_id id (suc depth) few below = ground (
  arith,
  round_listed app.db.tasks user_id max_task_tree_depth depth (children app.db.tasks user_id top) id
      (omega (arith, few)) (level_listed app.db.tasks user_id top depth id below),
)

-- Behind a cancellation the task has ended, and so has every task of the user in the table that
-- stands at most 65 levels below it, whatever state it was in.
pub cancel_ends_subtree :
    (app : App) (top user_id reason initiator id : Text) (depth : ℕ) (row : TaskRow)
    → depth ≤ 65
    → IsBelow app.db.tasks user_id top depth id
    → find_task id app.db.tasks ≡ some row
    → HasEnded id (cancel_task app top user_id reason initiator).0.db
cancel_ends_subtree app top user_id reason initiator id depth row few below found =
    cancel_ends_targets app top user_id reason initiator id row
      (below-targets app top user_id id depth few below) found
