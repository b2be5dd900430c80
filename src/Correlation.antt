-- ===== src/Correlation.antt =====
-- bp_sdk/correlation.py: `PendingMap`, the replies that an agent waits for, and those that came before
-- anyone waited. A future is a place in a list of futures, since its waiter keeps it after its entry is
-- gone; the type of the exceptions is a parameter, and a reply is tagged as a result or an exception,
-- where the code asks `isinstance(value, BaseException)`. Times are whole numbers of the event loop's clock,
-- and the reaper's task is its rounds. `buffer_max_size` is not 0: the eviction from an empty buffer,
-- which would raise, is not modelled.
pub mod Order
pub mod Buffer
mod Examples
use backplaned_agents.Prelude.{
  Eq, nat_eq, list_eq, option_eq, Text, Dict, lookup, insert, erase, ℕ, zero, suc, ◌+◌, ◌-◌, ◌⊎◌,
  inl, inr, Bool, true, false, not, ◌&&◌, Option, none, some, List, [], ◌∷◌, ◌++◌, map, arith, ltb,
  leb, if◌then◌else◌, is_some, length,
}

-- an `asyncio.Future`; `cancelled` is what its waiter makes of it
pub data Future {ℓ κ} (A : Type ℓ) (E : Type κ) : Type (ℓ ⊔ κ) where
  waiting cancelled : Future A E
  result : A → Future A E
  failed : E → Future A E

-- `not future.done()`
abbrev pub is_waiting {ℓ κ} : {A : Type ℓ} {E : Type κ} → Future A E → Bool
is_waiting waiting = true
is_waiting _ = false

-- `_Pending`
pub record Pending : Type 0 where
  pub future : ℕ
  pub deadline : ℕ

-- a value or an exception, and when it came
abbrev pub Late {ℓ κ} : Type ℓ → Type κ → Type (ℓ ⊔ κ)
Late A E = (A ⊎ E) × ℕ

pub record PendingMap {ℓ κ} (A : Type ℓ) (E : Type κ) : Type (ℓ ⊔ κ) where
  pub pending : Dict Text Pending
  pub buffered : Dict Text (Late A E)
  pub futures : List (Future A E)
  pub default_timeout : ℕ
  pub buffer_resolves_s : ℕ
  pub buffer_max_size : ℕ

-- `timeout_s or self._default_timeout`
abbrev pub timeout_or : Option ℕ → ℕ → ℕ
timeout_or none default = default
timeout_or (some zero) default = default
timeout_or (some (suc t)) default = suc t

abbrev pub drop_oldest {ℓ} : {A : Type ℓ} → List A → List A
drop_oldest [] = []
drop_oldest (x ∷ xs) = xs

-- the ids whose deadline has come
unfoldable pub expired : ℕ → Dict Text Pending → List Text
expired now [] = []
expired now ((cid, p) ∷ items) =
    if leb p.deadline now then cid ∷ expired now items else expired now items

module _ {ℓ κ} {A : Type ℓ} {E : Type κ} where
  -- `set_exception` or `set_result`
  abbrev pub outcome : A ⊎ E → Future A E
  outcome (inl value) = result value
  outcome (inr exc) = failed exc

  -- `if not future.done(): future.set_...`
  unfoldable pub settle : List (Future A E) → ℕ → Future A E → List (Future A E)
  settle [] i out = []
  settle (f ∷ fs) zero out = (if is_waiting f then out else f) ∷ fs
  settle (f ∷ fs) (suc i) out = f ∷ settle fs i out

  -- `register` at the time `now`, and the future that the caller awaits
  unfoldable pub register : PendingMap A E → Text → Option ℕ → ℕ → PendingMap A E × ℕ
  unfolding lookup insert erase
  register m correlation_id timeout_s now = elim (lookup correlation_id m.buffered) [
    | some late ↦ (
      record m {
        buffered = erase correlation_id m.buffered;
        futures = m.futures ++ outcome late.0 ∷ [];
      },
      length m.futures,
    )
    | none ↦ (
      record m {
        pending =
            insert correlation_id
              (record {
                future = length m.futures;
                deadline = now + timeout_or timeout_s m.default_timeout;
              })
              m.pending;
        futures = m.futures ++ waiting ∷ [];
      },
      length m.futures,
    )
  ]

  -- `_buffer_late_value`
  unfoldable pub buffer_late_value : PendingMap A E → Text → A ⊎ E → ℕ → PendingMap A E
  unfolding lookup insert
  buffer_late_value m correlation_id value now =
      let full =
        leb m.buffer_max_size (length m.buffered)
        && not (is_some (lookup correlation_id m.buffered)) in
      let kept = if full then drop_oldest m.buffered else m.buffered in
      record m { buffered = insert correlation_id (value, now) kept }

  -- the common part of `resolve` and `reject`
  unfoldable pub close : PendingMap A E → Text → A ⊎ E → ℕ → PendingMap A E × Bool
  unfolding lookup erase settle buffer_late_value
  close m correlation_id value now = elim (lookup correlation_id m.pending) [
    | none ↦ (buffer_late_value m correlation_id value now, false)
    | some entry ↦ (
      record m {
        pending = erase correlation_id m.pending;
        futures = settle m.futures entry.future (outcome value);
      },
      true,
    )
  ]

  unfoldable pub resolve : PendingMap A E → Text → A → ℕ → PendingMap A E × Bool
  unfolding close
  resolve m correlation_id value now = close m correlation_id (inl value) now

  unfoldable pub reject : PendingMap A E → Text → E → ℕ → PendingMap A E × Bool
  unfolding close
  reject m correlation_id exc now = close m correlation_id (inr exc) now

  -- the loop that rejects each of a list of ids, and counts those that were pending
  unfoldable pub reject_each : PendingMap A E → List Text → E → ℕ → PendingMap A E × ℕ
  unfolding reject
  reject_each m [] exc now = (m, 0)
  reject_each m (cid ∷ cids) exc now =
      let (m', found) = reject m cid exc now in
      let (m'', count) = reject_each m' cids exc now in (m'', (if found then 1 else 0) + count)

  unfoldable pub reject_all : PendingMap A E → E → ℕ → PendingMap A E × ℕ
  unfolding reject_each
  reject_all m exc now = reject_each m (map (λ e. e.0) m.pending) exc now

  -- the buffered entries that are young enough
  unfoldable pub fresh : ℕ → ℕ → Dict Text (Late A E) → Dict Text (Late A E)
  fresh window now [] = []
  fresh window now ((cid, late) ∷ items) =
      let rest = fresh window now items in
      if ltb window (now - late.1) then rest else (cid, late) ∷ rest

  -- one round of `_reap`; the exception is the `TimeoutError`
  unfoldable pub reap : PendingMap A E → E → ℕ → PendingMap A E
  unfolding expired reject_each fresh
  reap m timeout now =
      let (m', count) = reject_each m (expired now m.pending) timeout now in
      record m' { buffered = fresh m'.buffer_resolves_s now m'.buffered }
