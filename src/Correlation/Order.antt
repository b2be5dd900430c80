-- ===== src/Correlation/Order.antt =====
-- A reply that comes before its waiter is the same as one that comes behind it.
use backplaned_agents.Prelude.{
  ◌==◌, nat_eq, list_eq, option_eq, Text, Dict, ==_self, lookup-insert_self, lookup, insert, erase,
  ℕ, ◌+◌, ◌<◌, ◌≡◌, refl, sym, ap, ◌∙◌, ◌⊎◌, inl, inr, false, Option, none, some, List, [], ◌∷◌,
  ◌++◌, arith, leb, Bool-cases, length, get_elem?,
}
use backplaned_agents.Correlation.{
  Future, waiting, PendingMap, timeout_or, outcome, settle, register, buffer_late_value, close,
}

not_full : (cap n : ℕ) → n < cap → leb cap n ≡ false
not_full cap n h = ground arith

module _ {ℓ} {V : Type ℓ} where
  erase_absent : (k : Text) (d : Dict Text V) → lookup k d ≡ none → erase k d ≡ d
  unfolding lookup erase
  erase_absent k [] h = refl
  erase_absent k ((j, w) ∷ d) h = elim (Bool-cases (j == k)) [
    | inl y ↦ absurd (ground (arith, rw y at h))
    | inr n ↦ rw n (ap (λ t. (j, w) ∷ t) (erase_absent k d (rw n at h)))
  ]

  pub erase-insert :
      (k : Text) (v : V) (d : Dict Text V) → lookup k d ≡ none → erase k (insert k v d) ≡ d
  unfolding lookup insert erase
  erase-insert k v [] h = rw (==_self k) refl
  erase-insert k v ((j, w) ∷ d) h = elim (Bool-cases (j == k)) [
    | inl y ↦ absurd (ground (arith, rw y at h))
    | inr n ↦ rw n (rw n (ap (λ t. (j, w) ∷ t) (erase-insert k v d (rw n at h))))
  ]

module _ {ℓ κ} {A : Type ℓ} {E : Type κ} where
  settle_last :
      (fs : List (Future A E)) (out : Future A E)
      → settle (fs ++ waiting ∷ []) (length fs) out ≡ fs ++ out ∷ []
  unfolding settle
  settle_last [] out = refl
  settle_last (f ∷ fs) out = ap (λ t. f ∷ t) (settle_last fs out)

  last_elem :
      (fs : List (Future A E)) (out : Future A E)
      → get_elem? (fs ++ out ∷ []) (length fs) ≡ some out
  last_elem [] out = refl
  last_elem (f ∷ fs) out = last_elem fs out

  module _ (m : PendingMap A E) (cid : Text) (value : A ⊎ E) (timeout : Option ℕ) (now : ℕ) where
    -- the map once the reply has come to its waiter
    abbrev met : PendingMap A E
    met = record m { futures = m.futures ++ outcome value ∷ [] }

    reply_after :
        (later : ℕ)
        → lookup cid m.pending ≡ none
        → lookup cid m.buffered ≡ none
        → (close (register m cid timeout now).0 cid value later).0 ≡ met
    unfolding register close
    reply_after later p b =
        rw (b, register)
          (rw
            (
              lookup-insert_self cid
                  (record {
                    future = length m.futures;
                    deadline = now + timeout_or timeout m.default_timeout;
                  })
                  m.pending,
              close,
            )
            (rw
              (
                erase-insert cid
                    (record {
                      future = length m.futures;
                      deadline = now + timeout_or timeout m.default_timeout;
                    })
                    m.pending p,
                settle_last m.futures (outcome value),
              )
              refl))

    reply_before :
        (earlier : ℕ)
        → lookup cid m.pending ≡ none
        → lookup cid m.buffered ≡ none
        → length m.buffered < m.buffer_max_size
        → register (close m cid value earlier).0 cid timeout now ≡ (met, length m.futures)
    unfolding close register buffer_late_value
    reply_before earlier p b room =
        rw (p, close)
          (rw (not_full m.buffer_max_size (length m.buffered) room, buffer_late_value)
            (rw (lookup-insert_self cid (value, earlier) m.buffered, register)
              (rw (erase-insert cid (value, earlier) m.buffered b) refl)))

    -- Where nothing is known of the id and the buffer has room, a reply that comes before its waiter
    -- leaves the same map and the same settled future as one that comes behind it.
    pub early_reply_met :
        (earlier later : ℕ)
        → lookup cid m.pending ≡ none
        → lookup cid m.buffered ≡ none
        → length m.buffered < m.buffer_max_size
        → let (before, fut) = register (close m cid value earlier).0 cid timeout now in
          let (registered, fut') = register m cid timeout now in
          (before ≡ (close registered cid value later).0)
          × (fut ≡ fut')
          × (get_elem? before.futures fut ≡ some (outcome value))
    unfolding register
    early_reply_met earlier later p b room =
        let same = reply_before earlier p b room in
        (
          ap (λ x. x.0) same ∙ sym (reply_after later p b),
          ap (λ x. x.1) same ∙ sym (rw (b, register) refl),
          rw same (last_elem m.futures (outcome value)),
        )
