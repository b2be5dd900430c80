-- ===== src/SessionLock/Local.antt =====
-- The guards of one process: those of a session share one lock object, and a session without a guard
-- leaves nothing behind.
use backplaned_agents.Prelude.{
  nat_eq, list_eq, option_eq, Text, lookup-insert, ==_self, lookup-insert_self, lookup, ℕ, zero,
  suc, ◌≤◌, ◌<◌, ◌≡◌, sym, ap, ◌∙◌, inl, inr, true, false, none, some, List, [], ◌∷◌, arith, leb,
  Bool-cases, Option-cases, some_inj, get_elem?, All,
}
use mathlib.Core.Path.{subst}
use backplaned_agents.SessionLock.{
  refs_of, acquire_local, release_local, Process, without_one, GuardEvent, enters, exits, has_guard,
  guard_step, guard_steps,
}
use backplaned_agents.SessionLock.Counts.{
  count, counted, refs_counted, All-without, enter_refs, no_guard_yet, enter_idle, count_after_self,
  last_refs, last_idle, more_refs, more_idle, locks_apart, IsConsistent,
}

enter-IsConsistent :
    (p : Process) (sid : Text) → IsConsistent p → IsConsistent (guard_step p (enters sid))
unfolding guard_step acquire_local
enter-IsConsistent p sid c = elim (Option-cases (lookup sid p.manager.local)) [
  | inr (lock, e) ↦
      rw (e, acquire_local)
        (record {
          refs = λ other. enter_refs p sid c lock other;
          locks = (e, c.locks);
          idle = λ other h. c.idle other (enter_idle p sid c lock other h).1;
        })
  | inl e ↦
      rw (e, acquire_local)
        (record {
          refs = λ other. enter_refs p sid c p.manager.next_lock other;
          locks = (
            lookup-insert_self sid p.manager.next_lock p.manager.local,
            no_guard_yet p sid c e p.guards c.locks,
          );
          idle = λ other h.
              let (apart, alone) = enter_idle p sid c p.manager.next_lock other h in
              rw (lookup-insert sid other p.manager.next_lock p.manager.local, apart)
                (c.idle other alone);
        })
]

exit-IsConsistent :
    (p : Process) (sid : Text) → IsConsistent p → IsConsistent (guard_step p (exits sid))
unfolding guard_step release_local
exit-IsConsistent p sid c =
    let one : leb (refs_of p.manager sid) 1 ≡ true → count sid p.guards ≤ 1 =
      λ h. ground (arith, refs_counted p c sid, h) in
    let two : leb (refs_of p.manager sid) 1 ≡ false → 1 < count sid p.guards =
      λ h. ground (arith, refs_counted p c sid, h) in
    elim (Bool-cases (has_guard sid p.guards)) [
      | inr n ↦ rw n c
      | inl y ↦ elim (Bool-cases (leb (refs_of p.manager sid) 1)) [
        | inl last ↦
            rw (y, last)
              (record {
                refs = λ other. last_refs p sid c y other (one last);
                locks =
                    locks_apart sid p.manager.local (without_one sid p.guards)
                      (omega (arith, count_after_self p sid c y sid (==_self sid), one last))
                      (All-without _ sid p.guards c.locks);
                idle = λ other h. last_idle p sid c y other h;
              })
        | inr more ↦
            rw (y, more)
              (record {
                refs = λ other. more_refs p sid c y other (two more);
                locks = All-without _ sid p.guards c.locks;
                idle = λ other h. more_idle p sid c y other (two more) h;
              })
      ]
    ]

step-IsConsistent : (p : Process) (e : GuardEvent) → IsConsistent p → IsConsistent (guard_step p e)
step-IsConsistent p (enters sid) c = enter-IsConsistent p sid c
step-IsConsistent p (exits sid) c = exit-IsConsistent p sid c

-- Whatever guards enter and exit, in whatever order, the counts stay right.
pub steps-IsConsistent :
    (p : Process) (more : List GuardEvent) → IsConsistent p → IsConsistent (guard_steps p more)
unfolding guard_steps
steps-IsConsistent p [] c = c
steps-IsConsistent p (e ∷ more) c =
    steps-IsConsistent (guard_step p e) more (step-IsConsistent p e c)

All-at :
    (P : Text × ℕ → Type 0) (guards : List (Text × ℕ)) (i : ℕ) (g : Text × ℕ)
    → All P guards
    → get_elem? guards i ≡ some g
    → P g
All-at P [] i g a h = absurd (ground (arith, h))
All-at P (x ∷ guards) zero g a h = subst P (some_inj h) a.0
All-at P (x ∷ guards) (suc i) g a h = All-at P guards i g a.1 h

-- Two guards of a session that have entered and not exited hold or wait for the same lock object,
-- whatever guards have come and gone.
pub overlapping_share_lock :
    (p : Process) (more : List GuardEvent) (i j : ℕ) (sid : Text) (a b : ℕ)
    → IsConsistent p
    → get_elem? (guard_steps p more).guards i ≡ some (sid, a)
    → get_elem? (guard_steps p more).guards j ≡ some (sid, b)
    → a ≡ b
overlapping_share_lock p more i j sid a b c at_i at_j =
    let c' = steps-IsConsistent p more c in
    let P : Text × ℕ → Type 0 = λ g. lookup g.0 (guard_steps p more).manager.local ≡ some g.1 in
    some_inj (sym (All-at P _ i (sid, a) c'.locks at_i) ∙ All-at P _ j (sid, b) c'.locks at_j)

-- Once no guard of a session is left, the manager keeps neither a lock nor a count for it.
pub idle_session_forgotten :
    (p : Process) (more : List GuardEvent) (sid : Text)
    → IsConsistent p
    → count sid (guard_steps p more).guards ≡ 0
    → (lookup sid (guard_steps p more).manager.local ≡ none)
      × (lookup sid (guard_steps p more).manager.local_refs ≡ none)
idle_session_forgotten p more sid c none_there =
    let c' = steps-IsConsistent p more c in
    (c'.idle sid none_there, c'.refs sid ∙ ap counted none_there)
