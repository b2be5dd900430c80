-- ===== src/SessionLock.antt =====
-- bp_agents/session_lock.py: `SessionLockManager`, the locks of one process with their count of guards,
-- and the lock in Redis that several instances share. A lock object is a number, the next one being
-- new. Redis is the key and the token that it holds; `SET key token NX` and the compare-and-act
-- transaction, which WATCH makes atomic, are steps on it, and the passing of a key's time is a step of
-- its own. The times themselves are left out. Where Redis
-- fails, a guard goes on without a key.
pub mod Counts
pub mod Local
pub mod Redis
pub mod Undisturbed
mod Examples
use backplaned_agents.Prelude.{
  Eq, ◌==◌, nat_eq, list_eq, option_eq, Text, Dict, lookup, insert, erase, ℕ, zero, suc, ◌-◌, Bool,
  true, false, not, ◌&&◌, none, some, List, [], ◌∷◌, arith, leb, if◌then◌else◌, any, select,
}

pub record SessionLockManager : Type 0 where
  pub local : Dict Text ℕ
  pub local_refs : Dict Text ℕ
  -- the lock object that `asyncio.Lock()` makes next
  pub next_lock : ℕ

-- `self._local_refs.get(session_id, 0)`
unfoldable pub refs_of : SessionLockManager → Text → ℕ
unfolding lookup
refs_of m session_id = elim (lookup session_id m.local_refs) [ none ↦ 0 | some n ↦ n ]

-- `_acquire_local`
unfoldable pub acquire_local : SessionLockManager → Text → SessionLockManager × ℕ
unfolding lookup insert refs_of
acquire_local m session_id = elim (lookup session_id m.local) [
  | some lock ↦
      (record m { local_refs = insert session_id (suc (refs_of m session_id)) m.local_refs }, lock)
  | none ↦ (
    record m {
      local = insert session_id m.next_lock m.local;
      local_refs = insert session_id (suc (refs_of m session_id)) m.local_refs;
      next_lock = suc m.next_lock;
    },
    m.next_lock,
  )
]

-- `_release_local`; `n - 1 <= 0` is `n <= 1`
unfoldable pub release_local : SessionLockManager → Text → SessionLockManager
unfolding erase insert refs_of
release_local m session_id =
    if leb (refs_of m session_id) 1
    then record m { local = erase session_id m.local; local_refs = erase session_id m.local_refs }
    else record m { local_refs = insert session_id (refs_of m session_id - 1) m.local_refs }

-- the guards that have entered and not exited, with the lock that they hold or wait for
pub record Process : Type 0 where
  pub manager : SessionLockManager
  pub guards : List (Text × ℕ)

-- without the first guard of a session
unfoldable pub without_one : Text → List (Text × ℕ) → List (Text × ℕ)
without_one session_id [] = []
without_one session_id (g ∷ guards) =
    if g.0 == session_id then guards else g ∷ without_one session_id guards

pub data GuardEvent : Type 0 where
  enters exits : Text → GuardEvent

abbrev pub has_guard : Text → List (Text × ℕ) → Bool
has_guard session_id guards = any (λ g. g.0 == session_id) guards

-- the parts of `__aenter__` and `__aexit__` that touch the process's locks; only a guard that has
-- entered exits
unfoldable pub guard_step : Process → GuardEvent → Process
unfolding acquire_local release_local without_one
guard_step p (enters session_id) =
    let (manager, lock) = acquire_local p.manager session_id in
    record { manager = manager; guards = (session_id, lock) ∷ p.guards }
guard_step p (exits session_id) =
    if has_guard session_id p.guards
    then record {
      manager = release_local p.manager session_id;
      guards = without_one session_id p.guards;
    }
    else p

unfoldable pub guard_steps : Process → List GuardEvent → Process
unfolding guard_step
guard_steps p [] = p
guard_steps p (e ∷ more) = guard_steps (guard_step p e) more

-- the keys in Redis with their tokens, and the guards of all instances that hold one
pub record Shared : Type 0 where
  pub keys : Dict Text Text
  pub held : List (Text × Text)

-- one round of the loop of `_acquire_redis`: the new keys, and was the key set?
unfoldable pub set_nx : Dict Text Text → Text → Text → Dict Text Text × Bool
unfolding lookup insert
set_nx keys key token = elim (lookup key keys) [
  | none ↦ (insert key token keys, true)
  | some other ↦ (keys, false)
]

-- `_cas`: the new keys, and was the key ours? An extension changes the time of the key alone.
unfoldable pub compare_and_act : Dict Text Text → Text → Text → Bool → Dict Text Text × Bool
unfolding lookup erase
compare_and_act keys key token extend =
    if lookup key keys == some token
    then (if extend then (keys, true) else (erase key keys, true))
    else (keys, false)

-- is the guard with this key and token a holder?
abbrev pub holds : Text → Text → List (Text × Text) → Bool
holds key token held = any (λ h. h.0 == key && h.1 == token) held

abbrev pub without_holder : Text → Text → List (Text × Text) → List (Text × Text)
without_holder key token held = select (λ h. not (h.0 == key && h.1 == token)) held

pub data SharedEvent : Type 0 where
  -- a guard with a new token asks for the key, extends its time, and gives it back, or its instance is
  -- gone
  acquires extends releases crashes : Text → Text → SharedEvent
  -- the time of a key passes: of one that nobody renews, and of one that is still held
  expires lapses : Text → SharedEvent
  -- Redis fails while a guard asks for the key, and it goes on without one
  fails_open : Text → Text → SharedEvent

unfoldable pub shared_step : Shared → SharedEvent → Shared
unfolding set_nx compare_and_act erase lookup
shared_step s (acquires key token) =
    let (keys, ok) = set_nx s.keys key token in
    if ok then record { keys = keys; held = (key, token) ∷ s.held } else s
shared_step s (extends key token) = record s { keys = (compare_and_act s.keys key token true).0 }
shared_step s (releases key token) =
    if holds key token s.held
    then record {
      keys = (compare_and_act s.keys key token false).0;
      held = without_holder key token s.held;
    }
    else s
shared_step s (crashes key token) = record s { held = without_holder key token s.held }
shared_step s (expires key) =
    if any (λ h. h.0 == key) s.held then s else record s { keys = erase key s.keys }
shared_step s (lapses key) = record s { keys = erase key s.keys }
shared_step s (fails_open key token) = record s { held = (key, token) ∷ s.held }

unfoldable pub shared_steps : Shared → List SharedEvent → Shared
unfolding shared_step
shared_steps s [] = s
shared_steps s (e ∷ more) = shared_steps (shared_step s e) more
