-- ===== src/Acks/Settled.antt =====
-- A future is settled at most once, and closing an id settles its future and no other.
use backplaned_agents.Prelude.{
  nat_eq, list_eq, option_eq, Text, lookup-erase_self, lookup-insert_self, lookup, insert, erase, ℕ,
  zero, suc, ◌+◌, ◌≡◌, refl, ap, ◌≢◌, inl, inr, true, false, Option, none, some, List, [], ◌∷◌,
  ◌++◌, arith, Option-cases, length, get_elem?,
}
use backplaned_agents.Acks.{
  timeout_or, AckFailure, agent_disconnected, ack_timeout, Future, waiting, result, failed,
  is_waiting, Pending, Acks, register, settle, close, resolve, reject, reject_each, reject_ids,
  expired, reap,
}

module _ {ℓ} {A : Type ℓ} where
  settle_settled :
      (fs : List (Future A)) (i j : ℕ) (out f : Future A)
      → get_elem? fs j ≡ some f
      → is_waiting f ≡ false
      → get_elem? (settle fs i out) j ≡ some f
  unfolding settle
  settle_settled [] i j out f h s = h
  settle_settled (g ∷ fs) zero zero out f h s = ground arith
  settle_settled (g ∷ fs) zero (suc j) out f h s = h
  settle_settled (g ∷ fs) (suc i) zero out f h s = h
  settle_settled (g ∷ fs) (suc i) (suc j) out f h s = settle_settled fs i j out f h s

  settle_self :
      (fs : List (Future A)) (i : ℕ) (out : Future A)
      → get_elem? fs i ≡ some waiting
      → get_elem? (settle fs i out) i ≡ some out
  unfolding settle
  settle_self [] i out h = absurd (ground arith)
  settle_self (g ∷ fs) zero out h = ground arith
  settle_self (g ∷ fs) (suc i) out h = settle_self fs i out h

  settle_other :
      (fs : List (Future A)) (i j : ℕ) (out : Future A)
      → i ≢ j
      → get_elem? (settle fs i out) j ≡ get_elem? fs j
  unfolding settle
  settle_other [] i j out h = refl
  settle_other (g ∷ fs) zero zero out h = absurd (h refl)
  settle_other (g ∷ fs) zero (suc j) out h = refl
  settle_other (g ∷ fs) (suc i) zero out h = refl
  settle_other (g ∷ fs) (suc i) (suc j) out h = settle_other fs i j out (λ e. h (ap suc e))

  get_elem?-longer :
      (fs : List (Future A)) (j : ℕ) (f g : Future A)
      → get_elem? fs j ≡ some f
      → get_elem? (fs ++ g ∷ []) j ≡ some f
  get_elem?-longer [] j f g h = absurd (ground arith)
  get_elem?-longer (x ∷ fs) zero f g h = h
  get_elem?-longer (x ∷ fs) (suc j) f g h = get_elem?-longer fs j f g h

-- what the router does with the map
pub data Call {ℓ} (A : Type ℓ) : Type ℓ where
  registers : Text → Option ℕ → ℕ → Call A
  resolves : Text → A → Call A
  rejects : Text → AckFailure → Call A
  disconnects : List Text → Call A
  reaps : ℕ → Call A

module _ {ℓ} {A : Type ℓ} where
  unfoldable pub call : Acks A → Call A → Acks A
  call acks (registers cid timeout now) = (register acks cid timeout now).0
  call acks (resolves cid value) = (resolve acks cid value).0
  call acks (rejects cid exc) = (reject acks cid exc).0
  call acks (disconnects cids) = (reject_ids acks cids).0
  call acks (reaps now) = reap acks now

  unfoldable pub calls : Acks A → List (Call A) → Acks A
  unfolding call
  calls acks [] = acks
  calls acks (c ∷ more) = calls (call acks c) more

  module _ (i : ℕ) (f : Future A) (s : is_waiting f ≡ false) where
    abbrev Holds : Acks A → Type ℓ
    Holds acks = get_elem? acks.futures i ≡ some f

    close-Holds :
        (acks : Acks A) (cid : Text) (out : Future A) → Holds acks → Holds (close acks cid out).0
    unfolding close
    close-Holds acks cid out h = elim (Option-cases (lookup cid acks.pending)) [
      | inl e ↦ rw (e, close) h
      | inr (p, e) ↦ rw (e, close) (settle_settled acks.futures p.future i out f h s)
    ]

    reject_each-Holds :
        (acks : Acks A) (cids : List Text) (exc : AckFailure)
        → Holds acks
        → Holds (reject_each acks cids exc).0
    unfolding reject_each reject
    reject_each-Holds acks [] exc h = h
    reject_each-Holds acks (cid ∷ cids) exc h =
        reject_each-Holds (close acks cid (failed exc)).0 cids exc
          (close-Holds acks cid (failed exc) h)

    call-Holds : (acks : Acks A) (c : Call A) → Holds acks → Holds (call acks c)
    unfolding call register resolve reject reject_ids reap
    call-Holds acks (registers cid timeout now) h = get_elem?-longer acks.futures i f waiting h
    call-Holds acks (resolves cid value) h = close-Holds acks cid (result value) h
    call-Holds acks (rejects cid exc) h = close-Holds acks cid (failed exc) h
    call-Holds acks (disconnects cids) h = reject_each-Holds acks cids agent_disconnected h
    call-Holds acks (reaps now) h = reject_each-Holds acks (expired now acks.pending) ack_timeout h

  -- A future is settled at most once: with a result, a failure or a cancellation in it, no sequence
  -- of calls changes it.
  pub settled_is_final :
      (more : List (Call A)) (acks : Acks A) (i : ℕ) (f : Future A)
      → get_elem? acks.futures i ≡ some f
      → is_waiting f ≡ false
      → get_elem? (calls acks more).futures i ≡ some f
  unfolding calls
  settled_is_final [] acks i f h s = h
  settled_is_final (c ∷ more) acks i f h s =
      settled_is_final more (call acks c) i f (call-Holds i f s acks c h) s

  get_elem?-end :
      (fs : List (Future A)) (f : Future A) → get_elem? (fs ++ f ∷ []) (length fs) ≡ some f
  get_elem?-end [] f = refl
  get_elem?-end (x ∷ fs) f = get_elem?-end fs f

  pub close-hit :
      (acks : Acks A) (cid : Text) (p : Pending) (out : Future A)
      → lookup cid acks.pending ≡ some p
      → close acks cid out ≡ (
        record acks {
          pending = erase cid acks.pending;
          futures = settle acks.futures p.future out;
        },
        true,
      )
  unfolding close
  close-hit acks cid p out e = rw (e, close) refl

  close-miss :
      (acks : Acks A) (cid : Text) (out : Future A)
      → lookup cid acks.pending ≡ none
      → close acks cid out ≡ (acks, false)
  unfolding close
  close-miss acks cid out e = rw (e, close) refl

  -- A registered id that is resolved before anything else happens to it hands the value to the
  -- future that was registered, reports success, and leaves the map; a second answer is refused.
  pub resolve-register :
      (acks : Acks A) (cid : Text) (timeout : Option ℕ) (now : ℕ) (value again : A)
      → let (acks', future) = register acks cid timeout now in
        let (acks'', found) = resolve acks' cid value in
        (found ≡ true)
        × (get_elem? acks''.futures future ≡ some (result value))
        × (lookup cid acks''.pending ≡ none)
        × (resolve acks'' cid again ≡ (acks'', false))
  unfolding register resolve
  resolve-register acks cid timeout now value again =
      let p : Pending = record {
        future = length acks.futures;
        deadline = now + timeout_or timeout acks.default_timeout;
      } in
      rw
        (close-hit (register acks cid timeout now).0 cid p (result value)
          (lookup-insert_self cid p acks.pending))
        (
          refl,
          settle_self (acks.futures ++ waiting ∷ []) (length acks.futures) (result value)
              (get_elem?-end acks.futures waiting),
          lookup-erase_self cid (insert cid p acks.pending),
          close-miss _ cid (result again) (lookup-erase_self cid (insert cid p acks.pending)),
        )
