-- ===== src/Tasks/Chain.antt =====
-- How far a chain of hand-overs can go: the depth and the cycle checks of `_admit_delegation`.
use backplaned_agents.Prelude.{
  ◌==◌, nat_eq, list_eq, option_eq, Text, text_iff, ==_self, lookup, ℕ, zero, suc, ◌≤◌, ◌<◌, ◌≡◌,
  refl, sym, ap, ◌∙◌, inl, inr, true, false, ◌&&◌, ◌||◌, some, List, [], ◌∷◌, ◌++◌, arith, leb,
  Bool-cases, Option-cases, some_inj, length, take, length-append, contains,
}
use mathlib.Core.Path.{subst}
use backplaned_agents.State.{TaskRow, TaskEvent, Db, find_task}
use backplaned_agents.State.Transitions.{find_task-id}
use backplaned_agents.Tasks.App.{NewTaskFrame, App}
use backplaned_agents.Tasks.Checks.{
  Setting, lock_task, destinations, list_delegation_destinations, check_executor, check_chain,
  check_acl, is_delegated, to_key,
}
use backplaned_agents.Tasks.Delegate.{begin_delegation, Answer, delegated_event, finish_delegation}
use backplaned_agents.Tasks.Handover.{sum_cases, IsHeld, accepted, handed_over}

-- a list that is cut below the limit is not cut
take_short : (m : ℕ) (xs : List Text) → length (take (suc m) xs) ≤ m → take (suc m) xs ≡ xs
take_short m [] h = refl
take_short zero (x ∷ xs) h = absurd (omega (arith, h))
take_short (suc m) (x ∷ xs) h = ap (λ t. x ∷ t) (take_short m xs (omega (arith, h)))

destinations-append :
    (id caller to : Text) (events : List TaskEvent)
    → destinations id (events ++ delegated_event id caller to ∷ [])
      ≡ destinations id events ++ to ∷ []
unfolding destinations lookup
destinations-append id caller to [] = rw (==_self id) refl
destinations-append id caller to (e ∷ events) =
    elim (Bool-cases (e.task_id == id && is_delegated e.kind)) [
      | inr n ↦ rw n (destinations-append id caller to events)
      | inl y ↦ elim (Option-cases (lookup to_key e.payload)) [
        | inl l ↦ rw (y, l) (destinations-append id caller to events)
        | inr (t, l) ↦ rw (y, l) (ap (λ xs. t ∷ xs) (destinations-append id caller to events))
      ]
    ]

-- no agent twice
abbrev pub NoRepeat : List Text → Type 0
NoRepeat [] = Unit
NoRepeat (x ∷ xs) = (contains xs x ≡ false) × NoRepeat xs

contains-append :
    (xs : List Text) (y z : Text) → contains (xs ++ y ∷ []) z ≡ (contains xs z || y == z)
contains-append [] y z = ground arith
contains-append (x ∷ xs) y z = ground (arith, contains-append xs y z)

NoRepeat-append :
    (xs : List Text) (y : Text) → NoRepeat xs → contains xs y ≡ false → NoRepeat (xs ++ y ∷ [])
NoRepeat-append [] y n c = (refl, tt)
NoRepeat-append (x ∷ xs) y n c = (
  ground (arith, contains-append xs y x, text_iff x y, text_iff y x),
  NoRepeat-append xs y n.1 (ground arith),
)

not_leb : (a b : ℕ) → leb a b ≡ false → b < a
not_leb a b h = ground arith

checked_found :
    (db : Db) (frame : NewTaskFrame) (caller : Text) (row : TaskRow)
    → check_executor db frame.user_id frame.task_id caller ≡ inl row
    → find_task frame.task_id db.tasks ≡ some row
unfolding check_executor lock_task
checked_found db frame caller row h = ground arith

-- what the check of the chain lets through
check_chain_passed :
    (db : Db) (setting : Setting) (row r : TaskRow) (to : Text)
    → check_chain db setting row to ≡ inl r
    → (length (destinations row.task_id db.events) < setting.task_delegation_max_depth)
      × (contains (row.agent_id ∷ destinations row.task_id db.events) to ≡ false)
unfolding check_chain list_delegation_destinations
check_chain_passed db setting row r to h =
    let m = setting.task_delegation_max_depth in
    let ds = destinations row.task_id db.events in
    elim (Bool-cases (leb m (length (take (suc m) ds)))) [
      | inl l ↦ absurd (ground (arith, rw (l, check_chain) at h))
      | inr l ↦
          let short : length (take (suc m) ds) ≤ m =
            omega (arith, not_leb m (length (take (suc m) ds)) l) in
          let uncut = take_short m ds short in
          elim (Bool-cases (contains (row.agent_id ∷ take (suc m) ds) to)) [
            | inl c ↦ absurd (ground (arith, rw (l, c, check_chain) at h))
            | inr c ↦ (
              subst (λ xs. length xs < m) uncut (not_leb m (length (take (suc m) ds)) l),
              subst (λ xs. contains (row.agent_id ∷ xs) to ≡ false) uncut c,
            )
          ]
    ]

-- a call that waits for an ack has passed all checks
begun :
    (app : App) (setting : Setting) (frame : NewTaskFrame) (caller cid : Text) (now fut : ℕ)
    → (begin_delegation app setting frame caller cid now).1 ≡ inl fut
    → (row : TaskRow) × (find_task frame.task_id app.db.tasks ≡ some row)
      × (length (destinations row.task_id app.db.events) < setting.task_delegation_max_depth)
      × (contains (row.agent_id ∷ destinations row.task_id app.db.events) frame.destination_agent_id
          ≡ false)
unfolding begin_delegation
begun app setting frame caller cid now fut h = elim (sum_cases (check_acl setting frame caller)) [
  | inr (e, a) ↦ absurd (ground (arith, rw (a, begin_delegation) at h))
  | inl (level, a) ↦ elim (sum_cases (check_executor app.db frame.user_id frame.task_id caller)) [
    | inr (e, b) ↦ absurd (ground (arith, rw (a, b, begin_delegation) at h))
    | inl (row, b) ↦ elim (sum_cases (check_chain app.db setting row frame.destination_agent_id)) [
      | inr (e, c) ↦ absurd (ground (arith, rw (a, b, c, begin_delegation) at h))
      | inl (r, c) ↦ (
        row,
        checked_found app.db frame caller row b,
        (check_chain_passed app.db setting row r frame.destination_agent_id c).0,
        (check_chain_passed app.db setting row r frame.destination_agent_id c).1,
      )
    ]
  ]
]

-- A hand-over that was begun and then accepted while the caller holds the task, with the task's row
-- and its hand-overs the same in between, leaves a chain of agents within the configured depth, and
-- one free of repetitions if it was so before.
pub chain_bounded :
    (app later : App) (setting : Setting) (frame : NewTaskFrame) (caller cid : Text) (now fut : ℕ)
    (answer : Answer) (held : IsHeld later.db frame caller)
    → (begin_delegation app setting frame caller cid now).1 ≡ inl fut
    → destinations frame.task_id later.db.events ≡ destinations frame.task_id app.db.events
    → find_task frame.task_id app.db.tasks ≡ find_task frame.task_id later.db.tasks
    → NoRepeat (held.row.agent_id ∷ destinations frame.task_id app.db.events)
    → accepted answer ≡ true
    → let chain =
        destinations frame.task_id (finish_delegation later frame caller cid answer).0.db.events in
      (length chain ≤ setting.task_delegation_max_depth) × NoRepeat (held.row.agent_id ∷ chain)
chain_bounded app later setting frame caller cid now fut answer held b events rows fresh ok =
    let (row, found, short, cycle) = begun app setting frame caller cid now fut b in
    let id = find_task-id frame.task_id app.db.tasks {row = row} found in
    let same : row ≡ held.row = some_inj (sym found ∙ rows ∙ held.found) in
    let old = destinations frame.task_id app.db.events in
    let chain =
      ap (λ e. destinations frame.task_id e)
        (handed_over later frame caller cid answer held frame.task_id ok).2
      ∙ destinations-append frame.task_id caller frame.destination_agent_id later.db.events
      ∙ ap (λ xs. xs ++ frame.destination_agent_id ∷ []) events in
    let short' =
      subst (λ t. length (destinations t app.db.events) < setting.task_delegation_max_depth) id
        short in
    let cycle' : contains (held.row.agent_id ∷ old) frame.destination_agent_id ≡ false =
      subst (λ r. contains (r.agent_id ∷ old) frame.destination_agent_id ≡ false) same
        (subst
          (λ t.
            contains (row.agent_id ∷ destinations t app.db.events) frame.destination_agent_id
            ≡ false)
          id cycle) in
    rw chain (
      omega (arith, short', length-append old (frame.destination_agent_id ∷ [])),
      NoRepeat-append (held.row.agent_id ∷ old) frame.destination_agent_id fresh cycle',
    )
