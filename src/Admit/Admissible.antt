-- ===== src/Admit/Admissible.antt =====
-- When `admit_task` lets a request through, in terms of the tables.
use backplaned_agents.Prelude.{
  nat_eq, list_eq, option_eq, Text, codes, ℕ, ◌≡◌, true, some, List, ◌∷◌, ◌++◌, All,
}
use backplaned_agents.State.{TaskRow}
use backplaned_agents.RateLimit.{Limit, try_consume}
use backplaned_agents.Tasks.App.{NewTaskFrame}
use backplaned_agents.Admit.Guards.{AdmitSetting, Router}
use backplaned_agents.Admit.Outcomes.{IsCallable}
use backplaned_agents.Admit.Depth.{HasChain}

-- no row has the caller, the user and the key
abbrev pub IsKeyFree : List TaskRow → Text → Text → Text → Type 0
IsKeyFree rows caller user key =
    All
      (λ row. ¬ (
        (row.caller_agent_id ≡ caller) × (row.user_id ≡ user) × (row.idempotency_key ≡ some key)))
      rows

module _ {Schema : Type 0} (setting : AdmitSetting Schema) (frame : NewTaskFrame)
    (caller level : Text) where
  -- what is asked of a request: no task has its key, it is callable, the bucket of the user's level
  -- grants it, and no chain of `spawn_max_depth` tasks ends with its parent
  pub record IsWelcome (r : Router) (now : ℕ) : Type 0 where
    pub key_free :
        (c : ℕ) (key : Text)
        → frame.idempotency_key ≡ some (c ∷ key)
        → IsKeyFree r.app.db.tasks caller frame.user_id (c ∷ key)
    pub callable : IsCallable setting r.sessions frame caller level
    pub granted :
        (limit : Limit)
        → setting.quota_admit level ≡ some limit
        → (try_consume r.admit_quota
            (codes "quota:admit")
            (frame.user_id ++ codes ":" ++ level)
            limit
            1
            now).1.allowed
          ≡ true
    pub shallow :
        (parent : Text)
        → frame.parent_task_id ≡ some parent
        → ¬ HasChain r.app.db.tasks frame.user_id setting.spawn_max_depth parent

  Granted : Router → ℕ → Type 0
  Granted r now =
      (limit : Limit)
      → setting.quota_admit level ≡ some limit
      → (try_consume r.admit_quota (codes "quota:admit") (frame.user_id ++ codes ":" ++ level) limit
          1 now).1.allowed
        ≡ true
