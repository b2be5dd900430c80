-- ===== src/Correlation/Buffer.antt =====
-- What holds of the map whatever is done to it: the buffer stays in its bound, and no id is pending
-- and buffered at once.
use backplaned_agents.Prelude.{
  ◌==◌, nat_eq, list_eq, option_eq, Text, text_iff, Dict, length-erase-le, lookup-insert,
  lookup-erase, lookup, insert, erase, ℕ, suc, ◌-◌, ◌≤◌, ◌<◌, ◌≡◌, refl, sym, ap, ◌∙◌, ◌⊎◌, inl,
  inr, true, false, not, ◌&&◌, Option, none, some, List, [], ◌∷◌, map, arith, ltb, leb,
  if◌then◌else◌, Bool-cases, Option-cases, is_some, length,
}
use backplaned_agents.Correlation.{
  Pending, Late, PendingMap, drop_oldest, register, buffer_late_value, close, resolve, reject,
  reject_each, reject_all, fresh, expired, reap,
}

module _ {ℓ} {V : Type ℓ} where
  length-insert :
      (k : Text) (v : V) (d : Dict Text V)
      → length (insert k v d) ≡ (if is_some (lookup k d) then length d else suc (length d))
  unfolding lookup insert
  length-insert k v [] = refl
  length-insert k v ((j, w) ∷ d) = ground (arith, length-insert k v d)

  absent_behind : (k : Text) (d : Dict Text V) → lookup k d ≡ none → lookup k (drop_oldest d) ≡ none
  unfolding lookup
  absent_behind k [] h = refl
  absent_behind k ((j, w) ∷ d) h = ground arith

  length-drop : (d : Dict Text V) → 0 < length d → suc (length (drop_oldest d)) ≡ length d
  length-drop [] h = absurd (ground arith)
  length-drop (x ∷ d) h = refl

  still_there :
      (k j : Text) (d : Dict Text V) {v : V} → lookup j (erase k d) ≡ some v → lookup j d ≡ some v
  still_there k j d h = ground (arith, lookup-erase k j d)

  other_id :
      (d : Dict Text V) (k j : Text) (p : V)
      → lookup k d ≡ none
      → lookup j d ≡ some p
      → (k == j) ≡ false
  other_id d k j p n h = elim (Bool-cases (k == j)) [
    | inr apart ↦ apart
    | inl y ↦ absurd (ground (arith, sym n ∙ ap (λ t. lookup t d) ((text_iff k j).0 y) ∙ h))
  ]

  full_of :
      (cap n : ℕ) (o : Option V) → (leb cap n && not (is_some o)) ≡ true → (cap ≤ n) × (o ≡ none)
  full_of cap n none h = (ground (arith, h), refl)
  full_of cap n (some v) h = absurd (ground (arith, h))

module _ {ℓ κ} {A : Type ℓ} {E : Type κ} where
  pub record IsOrderly (m : PendingMap A E) : Type (ℓ ⊔ κ) where
    pub bounded : length m.buffered ≤ m.buffer_max_size
    pub room : 0 < m.buffer_max_size
    pub apart :
        (cid : Text) (p : Pending) → lookup cid m.pending ≡ some p → lookup cid m.buffered ≡ none

  absent-fresh :
      (cid : Text) (window now : ℕ) (d : Dict Text (Late A E))
      → lookup cid d ≡ none
      → lookup cid (fresh window now d) ≡ none
  unfolding lookup fresh
  absent-fresh cid window now [] h = refl
  absent-fresh cid window now ((j, l) ∷ d) h = elim (Bool-cases (j == cid)) [
    | inl y ↦ absurd (ground (arith, rw y at h))
    | inr n ↦ elim (Bool-cases (ltb window (now - l.1))) [
      | inl o ↦ rw o (absent-fresh cid window now d (rw n at h))
      | inr o ↦ rw o (rw n (absent-fresh cid window now d (rw n at h)))
    ]
  ]

  length-fresh :
      (window now : ℕ) (d : Dict Text (Late A E)) → length (fresh window now d) ≤ length d
  unfolding fresh
  length-fresh window now [] = omega arith
  length-fresh window now ((j, l) ∷ d) = ground (arith, length-fresh window now d)

  late-IsOrderly :
      (m : PendingMap A E) (cid : Text) (value : A ⊎ E) (now : ℕ)
      → lookup cid m.pending ≡ none
      → IsOrderly m
      → IsOrderly (buffer_late_value m cid value now)
  unfolding buffer_late_value
  late-IsOrderly m cid value now absent o =
      let full =
        leb m.buffer_max_size (length m.buffered) && not (is_some (lookup cid m.buffered)) in
      let apart_of : (j : Text) (p : Pending) → lookup j m.pending ≡ some p → (cid == j) ≡ false =
        λ j p h. other_id m.pending cid j p absent h in
      elim (Bool-cases full) [
        | inl y ↦ rw y (record {
          bounded = ground (
            arith,
            length-insert cid (value, now) (drop_oldest m.buffered),
            length-drop m.buffered,
            absent_behind cid m.buffered,
            o.bounded,
            o.room,
            full_of m.buffer_max_size (length m.buffered) (lookup cid m.buffered) y,
          );
          room = o.room;
          apart = λ j p h.
              rw (lookup-insert cid j (value, now) (drop_oldest m.buffered), apart_of j p h)
                (absent_behind j m.buffered (o.apart j p h));
        })
        | inr n ↦ rw n (record {
          bounded = ground (arith, length-insert cid (value, now) m.buffered, o.bounded, n);
          room = o.room;
          apart = λ j p h.
              rw (lookup-insert cid j (value, now) m.buffered, apart_of j p h) (o.apart j p h);
        })
      ]

  close-IsOrderly :
      (m : PendingMap A E) (cid : Text) (value : A ⊎ E) (now : ℕ)
      → IsOrderly m
      → IsOrderly (close m cid value now).0
  unfolding close
  close-IsOrderly m cid value now o = elim (Option-cases (lookup cid m.pending)) [
    | inl e ↦ rw (e, close) (late-IsOrderly m cid value now e o)
    | inr (entry, e) ↦
        rw (e, close)
          (record {
            bounded = o.bounded;
            room = o.room;
            apart = λ j p h. o.apart j p (still_there cid j m.pending h);
          })
  ]

  register-IsOrderly :
      (m : PendingMap A E) (cid : Text) (timeout : Option ℕ) (now : ℕ)
      → IsOrderly m
      → IsOrderly (register m cid timeout now).0
  unfolding register
  register-IsOrderly m cid timeout now o = elim (Option-cases (lookup cid m.buffered)) [
    | inl e ↦
        rw (e, register)
          (record {
            bounded = o.bounded;
            room = o.room;
            apart = λ j p h. elim (Bool-cases (cid == j)) [
              | inl y ↦ ap (λ t. lookup t m.buffered) (sym ((text_iff cid j).0 y)) ∙ e
              | inr n ↦ o.apart j p (sym (lookup-insert cid j _ m.pending ∙ rw n refl) ∙ h)
            ];
          })
    | inr (late, e) ↦
        rw (e, register)
          (record {
            bounded = omega (arith, length-erase-le cid m.buffered, o.bounded);
            room = o.room;
            apart = λ j p h. rw (lookup-erase cid j m.buffered, o.apart j p h) (ground arith);
          })
  ]

  each-IsOrderly :
      (cids : List Text) (m : PendingMap A E) (exc : E) (now : ℕ)
      → IsOrderly m
      → IsOrderly (reject_each m cids exc now).0
  unfolding reject_each reject
  each-IsOrderly [] m exc now o = o
  each-IsOrderly (cid ∷ cids) m exc now o =
      each-IsOrderly cids _ exc now (close-IsOrderly m cid (inr exc) now o)

-- what the agent does with the map
pub data Call {ℓ κ} (A : Type ℓ) (E : Type κ) : Type (ℓ ⊔ κ) where
  registers : Text → Option ℕ → ℕ → Call A E
  resolves : Text → A → ℕ → Call A E
  rejects : Text → E → ℕ → Call A E
  rejects_all : E → ℕ → Call A E
  reaps : E → ℕ → Call A E

module _ {ℓ κ} {A : Type ℓ} {E : Type κ} where
  unfoldable pub call : PendingMap A E → Call A E → PendingMap A E
  unfolding register resolve reject reject_all reap
  call m (registers cid timeout now) = (register m cid timeout now).0
  call m (resolves cid value now) = (resolve m cid value now).0
  call m (rejects cid exc now) = (reject m cid exc now).0
  call m (rejects_all exc now) = (reject_all m exc now).0
  call m (reaps timeout now) = reap m timeout now

  unfoldable pub calls : PendingMap A E → List (Call A E) → PendingMap A E
  unfolding call
  calls m [] = m
  calls m (c ∷ more) = calls (call m c) more

  call-IsOrderly : (m : PendingMap A E) (c : Call A E) → IsOrderly m → IsOrderly (call m c)
  unfolding call resolve reject reject_all reap
  call-IsOrderly m (registers cid timeout now) o = register-IsOrderly m cid timeout now o
  call-IsOrderly m (resolves cid value now) o = close-IsOrderly m cid (inl value) now o
  call-IsOrderly m (rejects cid exc now) o = close-IsOrderly m cid (inr exc) now o
  call-IsOrderly m (rejects_all exc now) o = each-IsOrderly (map (λ e. e.0) m.pending) m exc now o
  call-IsOrderly m (reaps timeout now) o =
      let o' = each-IsOrderly (expired now m.pending) m timeout now o in
      let m' = (reject_each m (expired now m.pending) timeout now).0 in
      record {
        bounded = omega (arith, length-fresh m'.buffer_resolves_s now m'.buffered, o'.bounded);
        room = o'.room;
        apart = λ j p h. absent-fresh j m'.buffer_resolves_s now m'.buffered (o'.apart j p h);
      }

  -- Whatever is registered, resolved, rejected and reaped, the buffer holds at most `buffer_max_size`
  -- replies, and no id has both a waiter and a buffered reply.
  pub stays-IsOrderly :
      (m : PendingMap A E) (more : List (Call A E)) → IsOrderly m → IsOrderly (calls m more)
  unfolding calls
  stays-IsOrderly m [] o = o
  stays-IsOrderly m (c ∷ more) o = stays-IsOrderly (call m c) more (call-IsOrderly m c o)
