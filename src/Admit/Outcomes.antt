-- ===== src/Admit/Outcomes.antt =====
-- Which requests `admit_task` lets through to the transaction.
use backplaned_agents.Prelude.{
  nat_eq, list_eq, option_eq, Text, ℕ, ◌≡◌, refl, sym, ap, ◌∙◌, ◌↔◌, ◌⊎◌, inl, inr, Bool, true,
  false, Option, none, some, List, arith, Option-cases,
}
use backplaned_agents.Acl.Eval.{decide}
use backplaned_agents.Tasks.App.{NewTaskFrame}
use backplaned_agents.Tasks.Checks.{
  AdmitError, AgentRow, agent_not_found, user_unknown, acl_denied, session_unknown,
}
use backplaned_agents.Tasks.Handover.{sum_cases}
use backplaned_agents.Admit.Queries.{Session, find_session}
use backplaned_agents.Admit.Guards.{
  AdmitSetting, Router, ◌>>=◌, or_fail, unless_failing, check_schema, check_session, check_call,
  check_quota, check_depth,
}
use backplaned_agents.Admit.Created.{inl_inj}
use backplaned_agents.Admit.Admission.{
  Progress, goes_on, returns, refuses, known_task, check_admission,
}

bind_inl {ℓ κ} :
    {A : Type ℓ} {B : Type κ} (m : A ⊎ AdmitError) (f : A → B ⊎ AdmitError) {b : B}
    → (m >>= f) ≡ inl b
    → (a : A) × (m ≡ inl a) × (f a ≡ inl b)
bind_inl (inl a) f h = (a, refl, h)
bind_inl (inr e) f h = absurd (ground (arith, h))

or_fail-inl {ℓ} :
    {A : Type ℓ} (o : Option A) (e : AdmitError) {a : A} → or_fail o e ≡ inl a → o ≡ some a
or_fail-inl none e h = absurd (ground (arith, h))
or_fail-inl (some a) e h = ap (λ s. elim s [ inl x ↦ some x | inr y ↦ some a ]) h

pub unless_inl : (b : Bool) (e : AdmitError) {u : Unit {0}} → unless_failing b e ≡ inl u → b ≡ true
unless_inl true e h = refl
unless_inl false e h = absurd (ground (arith, h))

-- the agents are known, the destination is active and its schema fits, the rules allow the call at
-- the level of the user, and the session is one of the user that is open
pub record IsCallable {Schema : Type 0} (setting : AdmitSetting Schema) (sessions : List Session)
    (frame : NewTaskFrame) (caller level : Text) : Type 0 where
  pub caller_row : AgentRow
  pub callee_row : AgentRow
  pub session : Session
  pub caller_known : setting.common.get_agent caller ≡ some caller_row
  pub callee_known : setting.common.get_agent frame.destination_agent_id ≡ some callee_row
  pub callee_active : callee_row.active ≡ true
  pub fits : check_schema setting frame ≡ inl tt
  pub level_is : setting.common.session_level frame.user_id ≡ some level
  pub in_session : find_session frame.session_id frame.user_id sessions ≡ some session
  pub session_open : session.closed ≡ false
  pub allowed :
      (decide setting.common.rules caller_row.view callee_row.view (some level)).allow ≡ true

module _ {Schema : Type 0} (setting : AdmitSetting Schema) (frame : NewTaskFrame)
    (caller level : Text) where
  in_open_session :
      (sessions : List Session)
      → check_session sessions frame ≡ inl tt
      → (s : Session) × (find_session frame.session_id frame.user_id sessions ≡ some s)
        × (s.closed ≡ false)
  unfolding check_session
  in_open_session sessions h =
      let (s, e, h1) =
        bind_inl (or_fail (find_session frame.session_id frame.user_id sessions) session_unknown) _
          h in
      (s, or_fail-inl _ _ e, ground (arith, unless_inl _ _ h1))

  callable :
      (sessions : List Session)
      → check_call setting sessions frame caller ≡ inl level
      → IsCallable setting sessions frame caller level
  unfolding check_call
  callable sessions h =
      let (a, e1, h1) = bind_inl (or_fail (setting.common.get_agent caller) agent_not_found) _ h in
      let (b, e2, h2) =
        bind_inl (or_fail (setting.common.get_agent frame.destination_agent_id) agent_not_found) _
          h1 in
      let (_, e3, h3) = bind_inl (unless_failing b.active agent_not_found) _ h2 in
      let (_, e4, h4) = bind_inl (check_schema setting frame) _ h3 in
      let (l, e5, h5) =
        bind_inl (or_fail (setting.common.session_level frame.user_id) user_unknown) _ h4 in
      let (_, e6, h6) = bind_inl (check_session sessions frame) _ h5 in
      let (_, e7, h7) =
        bind_inl
          (unless_failing (decide setting.common.rules a.view b.view (some l)).allow acl_denied) _
          h6 in
      let lev = inl_inj h7 in
      let (s, e8, e9) = in_open_session sessions e6 in
      record {
        caller_row = a;
        callee_row = b;
        session = s;
        caller_known = or_fail-inl _ _ e1;
        callee_known = or_fail-inl _ _ e2;
        callee_active = unless_inl _ _ e3;
        fits = e4;
        level_is = or_fail-inl _ _ e5 ∙ ap (λ x. some x) lev;
        in_session = e8;
        session_open = e9;
        allowed =
            ap (λ x. (decide setting.common.rules a.view b.view (some x)).allow) (sym lev)
            ∙ unless_inl _ _ e7;
      }

  callable_checked :
      (sessions : List Session)
      → IsCallable setting sessions frame caller level
      → check_call setting sessions frame caller ≡ inl level
  unfolding check_call check_session
  callable_checked sessions c =
      rw
        (
          c.caller_known, c.callee_known, c.callee_active, c.fits, c.level_is, c.in_session,
          c.session_open, c.allowed, check_call,
        )
        refl

  -- the four hurdles
  abbrev pub IsAdmissible : Router → ℕ → Type 0
  IsAdmissible r now =
      (known_task r.app.db frame caller ≡ none)
      × IsCallable setting r.sessions frame caller level
      × ((check_quota setting r.admit_quota frame.user_id level now).1 ≡ inl tt)
      × (check_depth setting r.app.db frame ≡ inl tt)

  goes_on_inj : {l : Text} → ◌≡◌ {A = Progress Text} (goes_on l) (goes_on level) → l ≡ level
  goes_on_inj h = ap (λ p. elim p [ goes_on l ↦ l | returns x ↦ level | refuses e ↦ level ]) h

  pub let_through :
      (r : Router) (now : ℕ)
      → (check_admission setting r frame caller now).1 ≡ goes_on level
      → IsAdmissible r now
  unfolding check_admission
  let_through r now h = elim (Option-cases (known_task r.app.db frame caller)) [
    | inr (row, e) ↦ absurd (ground (arith, rw (e, check_admission) at h))
    | inl e ↦ elim (sum_cases (check_call setting r.sessions frame caller)) [
      | inr (x, c) ↦ absurd (ground (arith, rw (e, c, check_admission) at h))
      | inl (l, c) ↦ elim (sum_cases (check_quota setting r.admit_quota frame.user_id l now).1) [
        | inr (x, q) ↦
            let h1 = rw (e, c, check_admission) at h in absurd (ground (arith, rw q at h1))
        | inl (u, q) ↦ elim (sum_cases (check_depth setting r.app.db frame)) [
          | inr (x, d) ↦
              let h1 = rw (e, c, check_admission) at h in absurd (ground (arith, rw (q, d) at h1))
          | inl (v, d) ↦
              let h1 = rw (e, c, check_admission) at h in
              let same = goes_on_inj (rw (q, d) at h1) in
              (
                e,
                callable r.sessions (c ∙ ap inl same),
                ap (λ x. (check_quota setting r.admit_quota frame.user_id x now).1) (sym same) ∙ q,
                d,
              )
        ]
      ]
    ]
  ]

  -- the guards that are passed, as the code has them
  pub IsAdmissible-iff :
      (r : Router) (now : ℕ)
      → ((check_admission setting r frame caller now).1 ≡ goes_on level) ↔ IsAdmissible r now
  unfolding check_admission
  IsAdmissible-iff r now = (
    λ h. let_through r now h,
    λ (unknown, c, q, d).
        rw (unknown, callable_checked r.sessions c, check_admission) (rw (q, d) refl),
  )
