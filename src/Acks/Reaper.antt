-- ===== src/Acks/Reaper.antt =====
-- The reaper: which entries one round removes.
use backplaned_agents.Prelude.{
  ◌==◌, nat_eq, list_eq, option_eq, Text, text_iff, Dict, Distinct, lookup-erase, lookup, ℕ, ◌≡◌,
  refl, ◌∙◌, inl, inr, false, none, some, List, [], ◌∷◌, arith, leb, if◌then◌else◌, Bool-cases,
  Option-cases, contains,
}
use mathlib.Core.Path.{subst}
use backplaned_agents.Acks.{
  AckFailure, ack_timeout, Future, failed, Pending, Acks, close, reject, reject_each, expired, reap,
}

-- an expired id is one of the dict
not_expired :
    (now : ℕ) (d : Dict Text Pending) (j : Text)
    → lookup j d ≡ none
    → contains (expired now d) j ≡ false
unfolding expired lookup
not_expired now [] j h = refl
not_expired now ((cid, p) ∷ d) j h = elim (Bool-cases (cid == j)) [
  | inl y ↦ absurd (ground arith)
  | inr n ↦ elim (Bool-cases (leb p.deadline now)) [
    | inl l ↦ rw (l, n) (not_expired now d j (rw n at h))
    | inr g ↦ rw g (not_expired now d j (rw n at h))
  ]
]

contains-expired :
    (now : ℕ) (d : Dict Text Pending) (j : Text)
    → Distinct d
    → contains (expired now d) j ≡ elim (lookup j d) [ none ↦ false | some p ↦ leb p.deadline now ]
unfolding expired lookup
contains-expired now [] j h = refl
contains-expired now ((cid, p) ∷ d) j h = elim (Bool-cases (cid == j)) [
  | inl y ↦
      let fresh = not_expired now d j (subst (λ k. lookup k d ≡ none) ((text_iff cid j).0 y) h.0) in
      elim (Bool-cases (leb p.deadline now)) [ inl l ↦ rw (y, l, y) refl | inr g ↦ rw (y, g) fresh ]
  | inr n ↦ elim (Bool-cases (leb p.deadline now)) [
    | inl l ↦ rw (n, l, n) (contains-expired now d j h.1)
    | inr g ↦ rw (n, g) (contains-expired now d j h.1)
  ]
]

module _ {ℓ} {A : Type ℓ} where
  pub lookup-close :
      (acks : Acks A) (cid j : Text) (out : Future A)
      → lookup j (close acks cid out).0.pending ≡ (if cid == j then none else lookup j acks.pending)
  unfolding close
  lookup-close acks cid j out = elim (Option-cases (lookup cid acks.pending)) [
    | inl e ↦
        rw (e, close)
          (elim (Bool-cases (cid == j)) [
            | inl y ↦ rw y (subst (λ k. lookup k acks.pending ≡ none) ((text_iff cid j).0 y) e)
            | inr n ↦ rw n refl
          ])
    | inr (p, e) ↦ rw (e, close) (lookup-erase cid j acks.pending)
  ]

  pub lookup-reject_each :
      (acks : Acks A) (cids : List Text) (exc : AckFailure) (j : Text)
      → lookup j (reject_each acks cids exc).0.pending
        ≡ (if contains cids j then none else lookup j acks.pending)
  unfolding reject_each reject
  lookup-reject_each acks [] exc j = refl
  lookup-reject_each acks (cid ∷ cids) exc j =
      let acks' = (close acks cid (failed exc)).0 in
      let step = lookup-close acks cid j (failed exc) in
      lookup-reject_each acks' cids exc j ∙ (elim (Bool-cases (cid == j)) [
        | inl y ↦ rw (y, step, y) (ground arith)
        | inr n ↦ rw (n, step, n) refl
      ])

  -- One round of the reaper at the time `now`, on a map in which no id occurs twice, removes exactly
  -- the entries whose deadline is `now` or earlier, and leaves every other entry as it is.
  pub lookup-reap :
      (acks : Acks A) (now : ℕ) (cid : Text)
      → Distinct acks.pending
      → lookup cid (reap acks now).pending ≡ elim (lookup cid acks.pending) [
        | none ↦ none
        | some p ↦ if leb p.deadline now then none else some p
      ]
  unfolding reap
  lookup-reap acks now cid h =
      rw
        (
          lookup-reject_each acks (expired now acks.pending) ack_timeout cid,
          contains-expired now acks.pending cid h,
        )
        (elim (Option-cases (lookup cid acks.pending)) [
          | inl e ↦ rw e refl
          | inr (p, e) ↦ rw e refl
        ])
