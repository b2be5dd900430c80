-- ===== src/Admit/Guards.antt =====
-- bp_router/tasks.py `admit_task`, the steps before the row is written: the idempotency lookup, the
-- agents, the schema, the session, the rules, the rate and the depth. `jsonschema.validate` is a
-- parameter, and so are the agents, the levels and the settings.
use backplaned_agents.Prelude.{
  nat_eq, list_eq, option_eq, Text, codes, Dict, lookup, ℕ, ◌⊎◌, inl, inr, Bool, true, false, not,
  Option, none, some, List, [], ◌∷◌, ◌++◌, leb,
}
use backplaned_agents.Acl.Eval.{decide}
use backplaned_agents.State.{Body, Db}
use backplaned_agents.Lru.{Lru}
use backplaned_agents.RateLimit.{Bucket, Limit, try_consume}
use backplaned_agents.Tasks.App.{App, NewTaskFrame}
use backplaned_agents.Tasks.Checks.{
  AdmitError, agent_not_found, user_unknown, acl_denied, schema_mismatch, session_unknown,
  session_closed, quota_exceeded, spawn_depth_exceeded, internal_error, Setting,
}
use backplaned_agents.Admit.Queries.{Session, find_session, count_task_chain_depth}

-- what `jsonschema.validate` comes to: nothing, a `ValidationError` or a `SchemaError`
pub data Verdict : Type 0 where
  valid mismatch malformed : Verdict

-- what `admit_task` reads besides the state. `accepts_schema` is the dict of an agent, empty where
-- there is none; a schema that is null or empty is none.
pub record AdmitSetting (Schema : Type 0) : Type 0 where
  pub common : Setting
  pub accepts_schema : Text → Dict Text (Option Schema)
  pub validate : Body → Schema → Verdict
  pub quota_admit : Text → Option Limit
  pub spawn_max_depth : ℕ
  pub default_task_deadline_s : ℕ
  pub rehydrate : Body → Option Body

-- the state that `admit_task` works on
pub record Router : Type 0 where
  pub app : App
  pub sessions : List Session
  pub admit_quota : Lru Text Bucket

-- a step, or an error that ends the call
infixl 5 ◌>>=◌
abbrev pub ◌>>=◌ {ℓ κ} :
    {A : Type ℓ} {B : Type κ} → A ⊎ AdmitError → (A → B ⊎ AdmitError) → B ⊎ AdmitError
inl a >>= f = f a
inr e >>= f = inr e

abbrev pub or_fail {ℓ} : {A : Type ℓ} → Option A → AdmitError → A ⊎ AdmitError
or_fail none e = inr e
or_fail (some a) e = inl a

abbrev pub unless_failing : Bool → AdmitError → Unit {0} ⊎ AdmitError
unless_failing true e = inl tt
unless_failing false e = inr e

-- the schema of the mode that the frame names, or of the only mode
unfoldable pub pick_schema :
    {Schema : Type 0} → Dict Text (Option Schema) → Option Text → Option Schema ⊎ AdmitError
unfolding lookup
pick_schema [] mode = inl none
pick_schema ((m, schema) ∷ []) none = inl schema
pick_schema ((m, schema) ∷ more) none = inr schema_mismatch
pick_schema ((m, schema) ∷ more) (some mode) =
    or_fail (lookup mode ((m, schema) ∷ more)) schema_mismatch

-- step 3b, which the transaction of step 4 repeats
unfoldable pub check_session : List Session → NewTaskFrame → Unit {0} ⊎ AdmitError
unfolding find_session
check_session sessions frame = do
  session ← or_fail (find_session frame.session_id frame.user_id sessions) session_unknown
  unless_failing (not session.closed) session_closed

abbrev pub verdict_error : Verdict → Unit {0} ⊎ AdmitError
verdict_error valid = inl tt
verdict_error mismatch = inr schema_mismatch
verdict_error malformed = inr internal_error

module _ {Schema : Type 0} (setting : AdmitSetting Schema) where
  -- step 3a
  unfoldable pub check_schema : NewTaskFrame → Unit {0} ⊎ AdmitError
  unfolding pick_schema
  check_schema frame = do
    picked ← pick_schema (setting.accepts_schema frame.destination_agent_id) frame.input_mode
    elim picked [
      | none ↦ inl tt
      | some schema ↦ verdict_error (setting.validate frame.payload schema)
    ]

  -- steps 2 to 3b: the level of the user
  unfoldable pub check_call : List Session → NewTaskFrame → Text → Text ⊎ AdmitError
  unfolding check_schema check_session decide
  check_call sessions frame caller = do
    caller_row ← or_fail (setting.common.get_agent caller) agent_not_found
    callee_row ← or_fail (setting.common.get_agent frame.destination_agent_id) agent_not_found
    active ← unless_failing callee_row.active agent_not_found
    fits ← check_schema frame
    level ← or_fail (setting.common.session_level frame.user_id) user_unknown
    in_session ← check_session sessions frame
    allowed ←
        unless_failing
          (decide setting.common.rules caller_row.view callee_row.view (some level)).allow
          acl_denied
    inl level

  -- step 3c: the buckets, and the error
  unfoldable pub check_quota :
      Lru Text Bucket → Text → Text → ℕ → Lru Text Bucket × (Unit {0} ⊎ AdmitError)
  unfolding try_consume
  check_quota quota user_id level now = elim (setting.quota_admit level) [
    | none ↦ (quota, inl tt)
    | some limit ↦
        let (quota', d) =
          try_consume quota (codes "quota:admit") (user_id ++ codes ":" ++ level) limit 1 now in
        (quota', unless_failing d.allowed quota_exceeded)
  ]

  -- step 3d
  unfoldable pub check_depth : Db → NewTaskFrame → Unit {0} ⊎ AdmitError
  unfolding count_task_chain_depth
  check_depth db frame = elim frame.parent_task_id [
    | none ↦ inl tt
    | some parent ↦
        unless_failing
          (not (leb setting.spawn_max_depth (count_task_chain_depth db frame.user_id parent)))
          spawn_depth_exceeded
  ]
