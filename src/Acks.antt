-- ===== src/Acks.antt =====
-- bp_router/correlation.py: `PendingAcks`, the frames that the router waits to have acknowledged.
-- A future is a place in a list of futures, since a caller keeps it after its entry is gone. Times
-- are whole numbers of the event loop's clock.
pub mod Settled
pub mod Reaper
mod Examples
use backplaned_agents.Prelude.{
  Eq, nat_eq, list_eq, option_eq, Text, Dict, lookup, insert, erase, ℕ, zero, suc, ◌+◌, Bool, true,
  false, Option, none, some, List, [], ◌∷◌, ◌++◌, arith, leb, if◌then◌else◌, length,
}

pub data AckFailure : Type 0 where
  agent_disconnected ack_timeout backpressure : AckFailure

-- an `asyncio.Future`; `cancelled` is what its waiter makes of it
pub data Future {ℓ} (A : Type ℓ) : Type ℓ where
  waiting cancelled : Future A
  result : A → Future A
  failed : AckFailure → Future A

-- `not future.done()`
abbrev pub is_waiting {ℓ} : {A : Type ℓ} → Future A → Bool
is_waiting waiting = true
is_waiting _ = false

pub record Pending : Type 0 where
  pub future : ℕ
  pub deadline : ℕ

pub record Acks {ℓ} (A : Type ℓ) : Type ℓ where
  pub pending : Dict Text Pending
  pub futures : List (Future A)
  pub default_timeout : ℕ

-- `timeout_s or self._default_timeout`
abbrev pub timeout_or : Option ℕ → ℕ → ℕ
timeout_or none default = default
timeout_or (some zero) default = default
timeout_or (some (suc t)) default = suc t

module _ {ℓ} {A : Type ℓ} where
  -- `register` at the time `now`, and the future that the caller awaits
  unfoldable pub register : Acks A → Text → Option ℕ → ℕ → Acks A × ℕ
  unfolding insert
  register acks correlation_id timeout_s now = (
    record acks {
      pending =
          insert correlation_id
            (record {
              future = length acks.futures;
              deadline = now + timeout_or timeout_s acks.default_timeout;
            })
            acks.pending;
      futures = acks.futures ++ waiting ∷ [];
    },
    length acks.futures,
  )

  -- `if not future.done(): future.set_...`
  unfoldable pub settle : List (Future A) → ℕ → Future A → List (Future A)
  settle [] i outcome = []
  settle (f ∷ fs) zero outcome = (if is_waiting f then outcome else f) ∷ fs
  settle (f ∷ fs) (suc i) outcome = f ∷ settle fs i outcome

  -- the common part of `resolve` and `reject`
  unfoldable pub close : Acks A → Text → Future A → Acks A × Bool
  unfolding lookup erase settle
  close acks correlation_id outcome = elim (lookup correlation_id acks.pending) [
    | none ↦ (acks, false)
    | some entry ↦ (
      record acks {
        pending = erase correlation_id acks.pending;
        futures = settle acks.futures entry.future outcome;
      },
      true,
    )
  ]

  unfoldable pub resolve : Acks A → Text → A → Acks A × Bool
  unfolding close
  resolve acks correlation_id value = close acks correlation_id (result value)

  unfoldable pub reject : Acks A → Text → AckFailure → Acks A × Bool
  unfolding close
  reject acks correlation_id exc = close acks correlation_id (failed exc)

  -- the loop that rejects each of a list of ids, and counts those that were pending
  unfoldable pub reject_each : Acks A → List Text → AckFailure → Acks A × ℕ
  unfolding reject
  reject_each acks [] exc = (acks, 0)
  reject_each acks (cid ∷ cids) exc =
      let (acks', found) = reject acks cid exc in
      let (acks'', count) = reject_each acks' cids exc in (acks'', (if found then 1 else 0) + count)

  unfoldable pub reject_ids : Acks A → List Text → Acks A × ℕ
  unfolding reject_each
  reject_ids acks cids = reject_each acks cids agent_disconnected

-- the ids whose deadline has come
unfoldable pub expired : ℕ → Dict Text Pending → List Text
expired now [] = []
expired now ((cid, p) ∷ items) =
    if leb p.deadline now then cid ∷ expired now items else expired now items

-- one round of `_reap_loop`
unfoldable pub reap {ℓ} : {A : Type ℓ} → Acks A → ℕ → Acks A
unfolding expired reject_each
reap acks now = (reject_each acks (expired now acks.pending) ack_timeout).0
