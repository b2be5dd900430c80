-- ===== src/Delivery/Bounds.antt =====
-- What a delivery does to the sockets and to the pending acks.
use backplaned_agents.Prelude.{
  ◌==◌, nat_eq, list_eq, option_eq, Text, text_iff, Dict, lookup-insert, ==_self,
  lookup-insert_self, lookup, insert, ℕ, suc, ◌+◌, ◌≤◌, ◌≡◌, refl, sym, ap, ◌∙◌, ◌⊎◌, inl, inr,
  Bool, true, false, Option, none, some, List, [], ◌∷◌, arith, if◌then◌else◌, Bool-cases,
  Option-cases, is_some, some_inj, length, select, length-append,
}
use mathlib.Core.Path.{subst}
use backplaned_agents.Acks.{Acks, backpressure, register, reject, failed}
use backplaned_agents.Acks.Reaper.{lookup-close}
use backplaned_agents.Delivery.{
  Socket, Hub, queue_full, is_full, put, add_inflight, discard_inflight, give_up, deliver_frame,
  fanout_one, fanout_frame,
}

module _ {ℓ} {F : Type ℓ} where
  abbrev pub IsWithin : Socket F → Type 0
  IsWithin s = (s.capacity ≡ 0) ⊎ (length s.outbox ≤ s.capacity)

  put-IsWithin : (frame : F) (s : Socket F) → is_full s ≡ false → IsWithin (put frame s)
  put-IsWithin frame s h = ground (arith, length-append s.outbox (frame ∷ []))

  abbrev pub AllWithin : Dict Text (Socket F) → Type ℓ
  AllWithin sockets = (id : Text) (s : Socket F) → lookup id sockets ≡ some s → IsWithin s

  insert-AllWithin :
      (sockets : Dict Text (Socket F)) (agent_id : Text) (new : Socket F)
      → AllWithin sockets
      → IsWithin new
      → AllWithin (insert agent_id new sockets)
  insert-AllWithin sockets agent_id new b w id s h =
      let found = sym (lookup-insert agent_id id new sockets) ∙ h in
      elim (Bool-cases (agent_id == id)) [
        | inl y ↦ subst IsWithin (some_inj (rw y at found)) w
        | inr n ↦ b id s (rw n at found)
      ]

lookup-reject {ℓ} :
    {A : Type ℓ} (acks : Acks A) (cid : Text)
    → lookup cid (reject acks cid backpressure).0.pending ≡ none
unfolding reject
lookup-reject acks cid = rw (lookup-close acks cid cid (failed backpressure), ==_self cid) refl

select_same :
    (p q : Text → Bool) (ids : List Text)
    → ((id : Text) → p id ≡ q id)
    → select p ids ≡ select q ids
select_same p q [] h = refl
select_same p q (id ∷ ids) h = rw (h id, select_same p q ids h) refl

connected_insert {ℓ} :
    {F : Type ℓ} (sockets : Dict Text (Socket F)) (agent_id id : Text) (old new : Socket F)
    → lookup agent_id sockets ≡ some old
    → is_some (lookup id (insert agent_id new sockets)) ≡ is_some (lookup id sockets)
connected_insert sockets agent_id id old new e = elim (Bool-cases (agent_id == id)) [
  | inl y ↦
      rw (lookup-insert agent_id id new sockets, y) (rw (← (text_iff agent_id id).0 y, e) refl)
  | inr n ↦ rw (lookup-insert agent_id id new sockets, n) refl
]

module _ {ℓ κ} {F : Type ℓ} {A : Type κ} where
  -- every socket's outbox fits its capacity
  abbrev pub IsBounded : Hub F A → Type ℓ
  IsBounded hub = AllWithin hub.sockets

  give_up-IsBounded :
      (hub : Hub F A) (agent_id : Text) (entry : Socket F) (cid : Text) (await_ack : Bool)
      → IsBounded hub
      → IsWithin entry
      → IsBounded (give_up hub agent_id entry cid await_ack)
  unfolding give_up
  give_up-IsBounded hub agent_id entry cid false b w = b
  give_up-IsBounded hub agent_id entry cid true b w =
      insert-AllWithin hub.sockets agent_id (discard_inflight cid entry) b w

  full-IsBounded :
      (hub : Hub F A) (agent_id cid : Text) (frame : F) (timeout_s : Option ℕ) (now : ℕ)
      (await_ack : Bool) (entry : Socket F)
      → IsBounded hub
      → lookup agent_id hub.sockets ≡ some entry
      → is_full entry ≡ true
      → IsBounded (deliver_frame hub agent_id cid frame await_ack timeout_s now).0
  unfolding deliver_frame
  full-IsBounded hub agent_id cid frame timeout_s now true entry b e f =
      rw (e, f, deliver_frame)
        (give_up-IsBounded hub agent_id (add_inflight cid entry) cid true b (b agent_id entry e))
  full-IsBounded hub agent_id cid frame timeout_s now false entry b e f =
      rw (e, f, deliver_frame)
        (give_up-IsBounded hub agent_id entry cid false b (b agent_id entry e))

  room-IsBounded :
      (hub : Hub F A) (agent_id cid : Text) (frame : F) (timeout_s : Option ℕ) (now : ℕ)
      (await_ack : Bool) (entry : Socket F)
      → IsBounded hub
      → lookup agent_id hub.sockets ≡ some entry
      → is_full entry ≡ false
      → IsBounded (deliver_frame hub agent_id cid frame await_ack timeout_s now).0
  unfolding deliver_frame
  room-IsBounded hub agent_id cid frame timeout_s now true entry b e f =
      rw (e, f, deliver_frame)
        (insert-AllWithin hub.sockets agent_id (put frame (add_inflight cid entry)) b
          (put-IsWithin frame (add_inflight cid entry) f))
  room-IsBounded hub agent_id cid frame timeout_s now false entry b e f =
      rw (e, f, deliver_frame)
        (insert-AllWithin hub.sockets agent_id (put frame entry) b (put-IsWithin frame entry f))

  -- If every socket's outbox fits its queue's capacity, then so it does behind a delivery, whether
  -- an ack is awaited or not and whatever becomes of the frame.
  pub deliver_frame-IsBounded :
      (hub : Hub F A) (agent_id cid : Text) (frame : F) (await_ack : Bool) (timeout_s : Option ℕ)
      (now : ℕ)
      → IsBounded hub
      → IsBounded (deliver_frame hub agent_id cid frame await_ack timeout_s now).0
  unfolding deliver_frame
  deliver_frame-IsBounded hub agent_id cid frame await_ack timeout_s now b =
      elim (Option-cases (lookup agent_id hub.sockets)) [
        | inl e ↦ rw (e, deliver_frame) b
        | inr (entry, e) ↦ elim (Bool-cases (is_full entry)) [
          | inl f ↦ full-IsBounded hub agent_id cid frame timeout_s now await_ack entry b e f
          | inr f ↦ room-IsBounded hub agent_id cid frame timeout_s now await_ack entry b e f
        ]
      ]

  -- A full outbox refuses a frame that wants an ack, and nothing is left of it: its correlation id is not pending,
  -- the outbox is the old one, and the drop is counted once.
  pub full_leaves_nothing :
      (hub : Hub F A) (agent_id cid : Text) (frame : F) (timeout_s : Option ℕ) (now : ℕ)
      (entry : Socket F)
      → lookup agent_id hub.sockets ≡ some entry
      → is_full entry ≡ true
      → let (hub', sent) = deliver_frame hub agent_id cid frame true timeout_s now in
        (sent ≡ queue_full)
        × (lookup cid hub'.acks.pending ≡ none)
        × (lookup agent_id hub'.sockets ≡ some (discard_inflight cid (add_inflight cid entry)))
        × (hub'.dropped ≡ suc hub.dropped)
  unfolding deliver_frame
  full_leaves_nothing hub agent_id cid frame timeout_s now entry e full =
      rw (e, full, deliver_frame, give_up)
        (
          refl,
          lookup-reject (register hub.acks cid timeout_s now).0 cid,
          lookup-insert_self agent_id _ hub.sockets,
          refl,
        )

  abbrev is_connected : Hub F A → Text → Bool
  is_connected hub id = is_some (lookup id hub.sockets)

  -- what one round does to the two counts
  fanout_one_lem :
      (hub : Hub F A) (agent_id : Text) (frame : F)
      → let (hub', ok) = fanout_one hub agent_id frame in
        ((if ok then 1 else 0) + hub'.dropped
          ≡ (if is_connected hub agent_id then 1 else 0) + hub.dropped)
        × ((id : Text) → is_connected hub' id ≡ is_connected hub id)
  unfolding fanout_one
  fanout_one_lem hub agent_id frame = elim (Option-cases (lookup agent_id hub.sockets)) [
    | inl e ↦ rw (e, fanout_one) (refl, λ id. refl)
    | inr (entry, e) ↦ elim (Bool-cases (is_full entry)) [
      | inl f ↦ rw (e, f, fanout_one) (omega arith, λ id. refl)
      | inr f ↦
          rw (e, f, fanout_one)
            (omega arith, λ id. connected_insert hub.sockets agent_id id entry (put frame entry) e)
    ]
  ]

  -- A fan-out queues the frame or counts a drop once for every listed agent that is connected, and
  -- does neither for the others.
  pub fanout_frame_lem :
      (agent_ids : List Text) (hub : Hub F A) (frame : F)
      → let (hub', delivered) = fanout_frame hub agent_ids frame in
        delivered + hub'.dropped ≡ length (select (is_connected hub) agent_ids) + hub.dropped
  unfolding fanout_frame
  fanout_frame_lem [] hub frame = refl
  fanout_frame_lem (id ∷ ids) hub frame =
      let (counts, same) = fanout_one_lem hub id frame in
      let rest = fanout_frame_lem ids (fanout_one hub id frame).0 frame in
      let agree = select_same _ _ ids same in
      elim (Bool-cases (is_connected hub id)) [
        | inl y ↦ rw y (ground (arith, rest, ap length agree))
        | inr n ↦ rw n (ground (arith, rest, ap length agree))
      ]
