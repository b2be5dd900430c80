-- ===== src/SessionLock/Examples.antt =====
-- The theorems on the locks, at two sessions.
use backplaned_agents.Prelude.{
  nat_eq, list_eq, option_eq, codes, lookup, ℕ, ◌≡◌, refl, List, [], ◌∷◌,
}
use backplaned_agents.SessionLock.{
  fails_open, releases, Process, GuardEvent, enters, exits, guard_step, guard_steps, Shared,
  SharedEvent, acquires, extends, crashes, expires, compare_and_act, shared_step, shared_steps,
}
use backplaned_agents.SessionLock.Counts.{count, IsConsistent}
use backplaned_agents.SessionLock.Local.{overlapping_share_lock}
use backplaned_agents.SessionLock.Undisturbed.{IsBacked, holder_undisturbed}
use backplaned_agents.SessionLock.Redis.{IsExclusive, one_holder}

program : Unit {0}
unfolding lookup count guard_step guard_steps compare_and_act shared_step shared_steps
program = tt

abbrev idle : Process
idle = record { manager = record { local = []; local_refs = []; next_lock = 0 }; guards = [] }

idle-IsConsistent : IsConsistent idle
unfolding program
idle-IsConsistent = record { refs = λ sid. refl; locks = tt; idle = λ sid h. refl }

abbrev visits : List GuardEvent
visits = enters (codes "s") ∷ enters (codes "t") ∷ enters (codes "s") ∷ exits (codes "t") ∷ []

overlapping_share_lock_example : ◌≡◌ {A = ℕ} 0 0
unfolding program
overlapping_share_lock_example =
    overlapping_share_lock idle visits 0 1 (codes "s") 0 0 idle-IsConsistent refl refl

abbrev nobody : Shared
nobody = record { keys = []; held = [] }

abbrev contention : List SharedEvent
contention =
    acquires (codes "k") (codes "1")
    ∷ acquires (codes "k") (codes "2")
    ∷ extends (codes "k") (codes "1")
    ∷ crashes (codes "k") (codes "1")
    ∷ expires (codes "k")
    ∷ acquires (codes "k") (codes "2")
    ∷ []

one_holder_example : IsExclusive (shared_steps nobody contention)
one_holder_example = one_holder nobody contention refl (record { backed = tt; single = tt })

-- the key of a stale guard has lapsed, another has none, and a third asks in vain
abbrev late : List SharedEvent
late =
    extends (codes "k") (codes "0")
    ∷ releases (codes "k") (codes "0")
    ∷ fails_open (codes "k") (codes "2")
    ∷ acquires (codes "k") (codes "3")
    ∷ []

abbrev held_by_two : Shared
held_by_two = record {
  keys = (codes "k", codes "1") ∷ [];
  held = (codes "k", codes "1") ∷ (codes "k", codes "0") ∷ [];
}

holder_undisturbed_example : IsBacked (shared_steps held_by_two late) (codes "k") (codes "1")
unfolding program
holder_undisturbed_example =
    holder_undisturbed held_by_two late (codes "k") (codes "1") refl (refl, refl)

-- the second instance gets the key when the first is gone
taken_over : (shared_steps nobody contention).held ≡ (codes "k", codes "2") ∷ []
unfolding program
taken_over = refl
