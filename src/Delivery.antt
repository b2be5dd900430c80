-- ===== src/Delivery.antt =====
-- bp_router/delivery.py: pushing frames to the sockets of live agents. A frame's type is a
-- parameter, and its correlation id an argument. `deliver_frame` is cut at its one `await`: the part
-- before it is `deliver_frame`, which returns the future to await, and the part after it is
-- `acked`. The number of dropped frames stands for the counter of `_record_deliver_dropped`.
-- `acked` takes the socket under the agent's id for the one that the call has captured, which it is as
-- long as the agent has not connected anew.
mod Bounds
pub mod Given
mod Examples
use backplaned_agents.Prelude.{
  Eq, ◌==◌, nat_eq, list_eq, option_eq, Text, Dict, lookup, insert, ℕ, zero, suc, ◌+◌, Bool, true,
  false, not, ◌&&◌, Option, none, some, List, [], ◌∷◌, ◌++◌, arith, ltb, leb, if◌then◌else◌, length,
  select, contains,
}
use backplaned_agents.Acks.{Acks, backpressure, register, reject}

-- the fields of `SocketEntry` that delivery reads; `capacity` is the queue's `maxsize`
pub record Socket {ℓ} (F : Type ℓ) : Type ℓ where
  pub outbox : List F
  pub capacity : ℕ
  pub inflight : List Text

pub record Hub {ℓ κ} (F : Type ℓ) (A : Type κ) : Type (ℓ ⊔ κ) where
  pub sockets : Dict Text (Socket F)
  pub acks : Acks A
  pub dropped : ℕ

pub data Sent : Type 0 where
  not_connected queue_full queued : Sent
  -- a future to await
  awaiting : ℕ → Sent

-- `asyncio.Queue.full`
abbrev pub is_full {ℓ} : {F : Type ℓ} → Socket F → Bool
is_full s = ltb 0 s.capacity && leb s.capacity (length s.outbox)

-- `put_nowait` on a queue that is not full
abbrev pub put {ℓ} : {F : Type ℓ} → F → Socket F → Socket F
put frame s = record s { outbox = s.outbox ++ frame ∷ [] }

abbrev pub add_inflight {ℓ} : {F : Type ℓ} → Text → Socket F → Socket F
add_inflight cid s = record s {
  inflight = if contains s.inflight cid then s.inflight else s.inflight ++ cid ∷ [];
}

abbrev pub discard_inflight {ℓ} : {F : Type ℓ} → Text → Socket F → Socket F
discard_inflight cid s = record s { inflight = select (λ c. not (c == cid)) s.inflight }

module _ {ℓ κ} {F : Type ℓ} {A : Type κ} where
  -- the frame is not sent: the pending future is given up
  unfoldable pub give_up : Hub F A → Text → Socket F → Text → Bool → Hub F A
  unfolding insert reject register
  give_up hub agent_id entry cid await_ack =
      if await_ack
      then record hub {
        sockets = insert agent_id (discard_inflight cid entry) hub.sockets;
        acks = (reject hub.acks cid backpressure).0;
        dropped = suc hub.dropped;
      }
      else record hub { dropped = suc hub.dropped }

  unfoldable pub deliver_frame : Hub F A → Text → Text → F → Bool → Option ℕ → ℕ → Hub F A × Sent
  unfolding lookup insert register give_up
  deliver_frame hub agent_id cid frame await_ack timeout_s now =
      elim (lookup agent_id hub.sockets) [
        | none ↦ (hub, not_connected)
        | some entry ↦
            if await_ack
            then (let (acks', fut) = register hub.acks cid timeout_s now in
                let entry' = add_inflight cid entry in
                let hub' = record hub { acks = acks' } in
                if is_full entry' then (give_up hub' agent_id entry' cid true, queue_full) else (
                  record hub' { sockets = insert agent_id (put frame entry') hub.sockets },
                  awaiting fut,
                ))
            else if is_full entry
            then (give_up hub agent_id entry cid false, queue_full)
            else (record hub { sockets = insert agent_id (put frame entry) hub.sockets }, queued)
      ]

  -- the `finally` behind `await fut`
  unfoldable pub acked : Hub F A → Text → Text → Hub F A
  unfolding lookup insert
  acked hub agent_id cid = elim (lookup agent_id hub.sockets) [
    | none ↦ hub
    | some entry ↦ record hub { sockets = insert agent_id (discard_inflight cid entry) hub.sockets }
  ]

  -- one round of the loop of `fanout_frame`
  unfoldable pub fanout_one : Hub F A → Text → F → Hub F A × Bool
  unfolding lookup insert
  fanout_one hub agent_id frame = elim (lookup agent_id hub.sockets) [
    | none ↦ (hub, false)
    | some entry ↦
        if is_full entry
        then (record hub { dropped = suc hub.dropped }, false)
        else (record hub { sockets = insert agent_id (put frame entry) hub.sockets }, true)
  ]

  unfoldable pub fanout_frame : Hub F A → List Text → F → Hub F A × ℕ
  unfolding fanout_one
  fanout_frame hub [] frame = (hub, 0)
  fanout_frame hub (agent_id ∷ agent_ids) frame =
      let (hub', ok) = fanout_one hub agent_id frame in
      let (hub'', delivered) = fanout_frame hub' agent_ids frame in
      (hub'', (if ok then 1 else 0) + delivered)
