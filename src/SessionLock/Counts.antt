-- ===== src/SessionLock/Counts.antt =====
-- The guards of one process, counted: what entering and leaving does to the counts.
use backplaned_agents.Prelude.{
  ◌==◌, nat_eq, list_eq, option_eq, Text, text_iff, Dict, lookup-insert, lookup-erase, lookup,
  insert, erase, ℕ, zero, suc, ◌-◌, ◌≤◌, ◌<◌, ◌≡◌, refl, sym, ap, ◌∙◌, inl, inr, true, false, ◌&&◌,
  Option, none, some, List, [], ◌∷◌, arith, ltb, if◌then◌else◌, Bool-cases, All,
}
use backplaned_agents.SessionLock.{refs_of, Process, without_one, has_guard}

-- how many guards of a session there are
unfoldable pub count : Text → List (Text × ℕ) → ℕ
count sid [] = 0
count sid (g ∷ guards) = let rest = count sid guards in if g.0 == sid then suc rest else rest

abbrev pub counted : ℕ → Option ℕ
counted zero = none
counted (suc n) = some (suc n)

-- the counts are right, a guard's lock is the one of its session, and an idle session has none
pub record IsConsistent (p : Process) : Type 0 where
  pub refs : (sid : Text) → lookup sid p.manager.local_refs ≡ counted (count sid p.guards)
  pub locks : All (λ g. lookup g.0 p.manager.local ≡ some g.1) p.guards
  pub idle : (sid : Text) → count sid p.guards ≡ 0 → lookup sid p.manager.local ≡ none

pub refs_counted :
    (p : Process) → IsConsistent p → (sid : Text) → refs_of p.manager sid ≡ count sid p.guards
unfolding refs_of
refs_counted p c sid = ground (arith, c.refs sid)

pub has_guard-count :
    (sid : Text) (guards : List (Text × ℕ)) → has_guard sid guards ≡ ltb 0 (count sid guards)
unfolding count
has_guard-count sid [] = refl
has_guard-count sid (g ∷ guards) = ground (arith, has_guard-count sid guards)

pub count-without :
    (sid other : Text) (guards : List (Text × ℕ))
    → count other (without_one sid guards)
      ≡ count other guards - (if sid == other && has_guard sid guards then 1 else 0)
unfolding count without_one
count-without sid other [] = ground arith
count-without sid other (g ∷ guards) = ground (
  arith,
  count-without sid other guards,
  text_iff g.0 sid,
  text_iff g.0 other,
  text_iff sid other,
  has_guard-count sid guards,
)

pub All-weaken :
    {P Q : Text × ℕ → Type 0} (guards : List (Text × ℕ))
    → ((g : Text × ℕ) → P g → Q g)
    → All P guards
    → All Q guards
All-weaken [] f a = tt
All-weaken (g ∷ guards) f a = (f g a.0, All-weaken guards f a.1)

pub All-without :
    (P : Text × ℕ → Type 0) (sid : Text) (guards : List (Text × ℕ))
    → All P guards
    → All P (without_one sid guards)
unfolding without_one
All-without P sid [] a = tt
All-without P sid (g ∷ guards) a = elim (Bool-cases (g.0 == sid)) [
  | inl y ↦ rw y a.1
  | inr n ↦ rw n ((a.0, All-without P sid guards a.1))
]

pub flip_false : (a b : Text) → (a == b) ≡ false → (b == a) ≡ false
flip_false a b n = ground (arith, text_iff a b, text_iff b a)

pub count_of :
    (sid other : Text) (n : ℕ)
    → (sid == other) ≡ true
    → (guards : List (Text × ℕ)) → count sid guards ≡ n
    → count other guards ≡ n
count_of sid other n y guards e = ap (λ t. count t guards) (sym ((text_iff sid other).0 y)) ∙ e

module _ (p : Process) (sid : Text) (c : IsConsistent p) where
  pub enter_refs :
      (lock : ℕ) (other : Text)
      → lookup other (insert sid (suc (refs_of p.manager sid)) p.manager.local_refs)
        ≡ counted (count other ((sid, lock) ∷ p.guards))
  unfolding count
  enter_refs lock other = elim (Bool-cases (sid == other)) [
    | inl y ↦
        rw
          (
            lookup-insert sid other (suc (refs_of p.manager sid)) p.manager.local_refs,
            y,
            refs_counted p c sid,
          )
          (ap (λ n. some (suc n)) (sym (count_of sid other _ y p.guards refl)))
    | inr n ↦
        rw (lookup-insert sid other (suc (refs_of p.manager sid)) p.manager.local_refs, n)
          (c.refs other)
  ]

  pub no_guard_yet :
      lookup sid p.manager.local ≡ none
      → (guards : List (Text × ℕ)) → All (λ g. lookup g.0 p.manager.local ≡ some g.1) guards
      → All (λ g. lookup g.0 (insert sid p.manager.next_lock p.manager.local) ≡ some g.1) guards
  no_guard_yet e guards a =
      All-weaken guards
        (λ g h. elim (Bool-cases (sid == g.0)) [
          | inl y ↦ absurd (
              ground
                (arith, sym e ∙ ap (λ t. lookup t p.manager.local) ((text_iff sid g.0).0 y) ∙ h))
          | inr n ↦ rw (lookup-insert sid g.0 p.manager.next_lock p.manager.local, n) h
        ])
        a

  pub enter_idle :
      (lock : ℕ) (other : Text)
      → count other ((sid, lock) ∷ p.guards) ≡ 0
      → ((sid == other) ≡ false) × (count other p.guards ≡ 0)
  unfolding count
  enter_idle lock other h = ground arith

pub counted_pos : (n : ℕ) → 0 < n → counted n ≡ some n
counted_pos zero h = absurd (omega (arith, h))
counted_pos (suc n) h = refl

module _ (p : Process) (sid : Text) (c : IsConsistent p)
    (entered : has_guard sid p.guards ≡ true) where
  pub some_guard : 0 < count sid p.guards
  some_guard = ground (arith, has_guard-count sid p.guards, entered)

  pub count_after_self :
      (other : Text)
      → (sid == other) ≡ true
      → count other (without_one sid p.guards) ≡ count sid p.guards - 1
  count_after_self other y =
      rw (count-without sid other p.guards, y, entered)
        (ap (λ n. n - 1) (count_of sid other _ y p.guards refl))

  pub count_after_other :
      (other : Text)
      → (sid == other) ≡ false
      → count other (without_one sid p.guards) ≡ count other p.guards
  count_after_other other n = rw (count-without sid other p.guards, n) (omega arith)

  pub none_left :
      (other : Text)
      → (sid == other) ≡ true
      → count sid p.guards ≤ 1
      → count other (without_one sid p.guards) ≡ 0
  none_left other y last = omega (arith, count_after_self other y, last)

  pub last_refs :
      (other : Text)
      → count sid p.guards ≤ 1
      → lookup other (erase sid p.manager.local_refs)
        ≡ counted (count other (without_one sid p.guards))
  last_refs other last = elim (Bool-cases (sid == other)) [
    | inl y ↦
        rw (lookup-erase sid other p.manager.local_refs, y)
          (sym (ap counted (none_left other y last)))
    | inr n ↦
        rw (lookup-erase sid other p.manager.local_refs, n, count_after_other other n)
          (c.refs other)
  ]

  pub last_idle :
      (other : Text)
      → count other (without_one sid p.guards) ≡ 0
      → lookup other (erase sid p.manager.local) ≡ none
  last_idle other h = elim (Bool-cases (sid == other)) [
    | inl y ↦ rw (lookup-erase sid other p.manager.local, y) refl
    | inr n ↦
        rw (lookup-erase sid other p.manager.local, n)
          (c.idle other (sym (count_after_other other n) ∙ h))
  ]

  pub more_refs :
      (other : Text)
      → 1 < count sid p.guards
      → lookup other (insert sid (refs_of p.manager sid - 1) p.manager.local_refs)
        ≡ counted (count other (without_one sid p.guards))
  more_refs other more = elim (Bool-cases (sid == other)) [
    | inl y ↦
        rw
          (
            lookup-insert sid other (refs_of p.manager sid - 1) p.manager.local_refs,
            y,
            refs_counted p c sid,
            count_after_self other y,
          )
          (sym (counted_pos (count sid p.guards - 1) (omega (arith, more))))
    | inr n ↦
        rw
          (
            lookup-insert sid other (refs_of p.manager sid - 1) p.manager.local_refs,
            n,
            count_after_other other n,
          )
          (c.refs other)
  ]

  pub more_idle :
      (other : Text)
      → 1 < count sid p.guards
      → count other (without_one sid p.guards) ≡ 0
      → lookup other p.manager.local ≡ none
  more_idle other more h = elim (Bool-cases (sid == other)) [
    | inl y ↦ absurd (omega (arith, more, count_after_self other y, h))
    | inr n ↦ c.idle other (sym (count_after_other other n) ∙ h)
  ]

pub locks_apart :
    (sid : Text) (local : Dict Text ℕ) (guards : List (Text × ℕ))
    → count sid guards ≡ 0
    → All (λ g. lookup g.0 local ≡ some g.1) guards
    → All (λ g. lookup g.0 (erase sid local) ≡ some g.1) guards
unfolding count
locks_apart sid local [] h a = tt
locks_apart sid local (g ∷ guards) h a = elim (Bool-cases (g.0 == sid)) [
  | inl y ↦ absurd (ground (arith, h, y))
  | inr n ↦ (
    rw (lookup-erase sid g.0 local, flip_false g.0 sid n) a.0,
    locks_apart sid local guards (ground (arith, h, n)) a.1,
  )
]
