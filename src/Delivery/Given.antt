-- ===== src/Delivery/Given.antt =====
-- What one frame does to the outboxes of the sockets.
use backplaned_agents.Prelude.{
  ◌==◌, nat_eq, list_eq, option_eq, Text, lookup-insert, lookup-insert_self, lookup, insert, ℕ, ◌<◌,
  ◌≡◌, refl, sym, ap, ◌∙◌, ◌⊎◌, inl, inr, true, false, Option, none, some, [], ◌∷◌, ◌++◌, arith,
  leb, Bool-cases, Option-cases, some_inj, length,
}
use backplaned_agents.Delivery.{Socket, Hub, is_full, give_up, deliver_frame, fanout_one}

-- a queue without a bound, or one that is not full
abbrev pub HasRoom {ℓ} : {F : Type ℓ} → Socket F → Type 0
HasRoom s = (s.capacity ≡ 0) ⊎ (length s.outbox < s.capacity)

-- between the two hubs the frame has been appended once to the agent's outbox, if the agent has a
-- socket with room; every other socket, and a socket without room, is as it was
pub record IsGiven {ℓ κ} {F : Type ℓ} {A : Type κ} (hub hub' : Hub F A) (agent_id : Text)
    (frame : F) : Type (ℓ ⊔ κ) where
  pub appended :
      (s : Socket F)
      → lookup agent_id hub.sockets ≡ some s
      → HasRoom s
      → (s' : Socket F) × (lookup agent_id hub'.sockets ≡ some s')
        × (s'.outbox ≡ s.outbox ++ frame ∷ [])
  pub without_room :
      (s : Socket F)
      → lookup agent_id hub.sockets ≡ some s
      → ¬ HasRoom s
      → lookup agent_id hub'.sockets ≡ some s
  pub offline : lookup agent_id hub.sockets ≡ none → lookup agent_id hub'.sockets ≡ none
  pub others :
      (other : Text)
      → (agent_id == other) ≡ false
      → lookup other hub'.sockets ≡ lookup other hub.sockets

module _ {ℓ} {F : Type ℓ} where
  room-open : (s : Socket F) → HasRoom s → is_full s ≡ false
  room-open s (inl h) = ground (arith, h)
  room-open s (inr h) = ground (arith, h)

  open-room : (s : Socket F) → is_full s ≡ false → HasRoom s
  open-room s h = elim (Bool-cases (leb s.capacity 0)) [
    | inl y ↦ inl (ground (arith, y))
    | inr n ↦ inr (ground (arith, n, h))
  ]

module _ {ℓ κ} {F : Type ℓ} {A : Type κ} (hub : Hub F A) (agent_id : Text) (frame : F) where
  untouched :
      (hub' : Hub F A)
      → hub'.sockets ≡ hub.sockets
      → ((s : Socket F) → lookup agent_id hub.sockets ≡ some s → is_full s ≡ true)
      → IsGiven hub hub' agent_id frame
  untouched hub' same full = record {
    appended = λ s found room. absurd (ground (arith, full s found, room-open s room));
    without_room = λ s found no. ap (lookup agent_id) same ∙ found;
    offline = λ e. ap (lookup agent_id) same ∙ e;
    others = λ other n. ap (lookup other) same;
  }

  appended_once :
      (hub' : Hub F A) (s s' : Socket F)
      → lookup agent_id hub.sockets ≡ some s
      → is_full s ≡ false
      → s'.outbox ≡ s.outbox ++ frame ∷ []
      → hub'.sockets ≡ insert agent_id s' hub.sockets
      → IsGiven hub hub' agent_id frame
  appended_once hub' s s' found room out same = record {
    appended = λ t there r. (
      s',
      ap (lookup agent_id) same ∙ lookup-insert_self agent_id s' hub.sockets,
      out ∙ ap (λ x. x.outbox ++ frame ∷ []) (some_inj (sym found ∙ there)),
    );
    without_room =
        λ t there no. absurd (no (open-room t (ap is_full (some_inj (sym there ∙ found)) ∙ room)));
    offline = λ e. absurd (ground (arith, sym found ∙ e));
    others = λ other n.
        ap (lookup other) same ∙ rw (lookup-insert agent_id other s' hub.sockets, n) refl;
  }

  no_socket :
      (hub' : Hub F A)
      → hub'.sockets ≡ hub.sockets
      → lookup agent_id hub.sockets ≡ none
      → IsGiven hub hub' agent_id frame
  no_socket hub' same e = untouched hub' same (λ s found. absurd (ground (arith, sym found ∙ e)))

  full_socket :
      (hub' : Hub F A) (s : Socket F)
      → hub'.sockets ≡ hub.sockets
      → lookup agent_id hub.sockets ≡ some s
      → is_full s ≡ true
      → IsGiven hub hub' agent_id frame
  full_socket hub' s same found full =
      untouched hub' same (λ t there. ap is_full (some_inj (sym there ∙ found)) ∙ full)

  -- A frame that awaits no ack is appended once to the outbox of the agent's socket, if it has room,
  -- and changes no other socket.
  pub deliver_frame-IsGiven :
      (cid : Text) (timeout_s : Option ℕ) (now : ℕ)
      → IsGiven hub (deliver_frame hub agent_id cid frame false timeout_s now).0 agent_id frame
  unfolding deliver_frame give_up
  deliver_frame-IsGiven cid timeout_s now = elim (Option-cases (lookup agent_id hub.sockets)) [
    | inl e ↦ rw (e, deliver_frame) (no_socket hub refl e)
    | inr (s, e) ↦ elim (Bool-cases (is_full s)) [
      | inl y ↦ rw (e, y, deliver_frame) (full_socket _ s refl e y)
      | inr n ↦ rw (e, n, deliver_frame) (appended_once _ s _ e n refl refl)
    ]
  ]

  -- So is a frame that is fanned out.
  pub fanout_one-IsGiven : IsGiven hub (fanout_one hub agent_id frame).0 agent_id frame
  unfolding fanout_one
  fanout_one-IsGiven = elim (Option-cases (lookup agent_id hub.sockets)) [
    | inl e ↦ rw (e, fanout_one) (no_socket hub refl e)
    | inr (s, e) ↦ elim (Bool-cases (is_full s)) [
      | inl y ↦ rw (e, y, fanout_one) (full_socket _ s refl e y)
      | inr n ↦ rw (e, n, fanout_one) (appended_once _ s _ e n refl refl)
    ]
  ]
