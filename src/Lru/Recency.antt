-- ===== src/Lru/Recency.antt =====
-- What is evicted is what was not touched for longest.
use backplaned_agents.Prelude.{
  Eq, nat_eq, list_eq, option_eq, Dict, lookup-append, length-erase-le, lookup-erase, ==_self,
  lookup, erase, ℕ, ◌+◌, ◌≤◌, ◌<◌, ◌≡◌, inl, inr, false, none, some, List, [], ◌∷◌, ◌++◌, arith,
  ltb, if◌then◌else◌, Bool-cases, Option-cases, length, length-append, All,
}
use backplaned_agents.Lru.{Lru, drop_oldest, put_last, get_item, set_item}
use backplaned_agents.Lru.Bounds.{
  IsValid, set_known, set_full, set_room, set_item-IsValid, lookup-put_last, length-put_last,
  Distinct-put_last,
}

module _ {ℓ κ} {K : Type ℓ} {V : Type κ} ⦃e : Eq K⦄ where
  -- how many entries are more recent than that of `k`
  unfoldable pub younger : K → Dict K V → ℕ
  younger k [] = 0
  younger k ((j, v) ∷ d) = if e.beq j k then length d else younger k d

  younger-append :
      (k : K) (d b : Dict K V) {v : V}
      → lookup k d ≡ some v
      → younger k (d ++ b) ≡ younger k d + length b
  unfolding younger lookup
  younger-append k [] b h = absurd (ground arith)
  younger-append k ((j, w) ∷ d) b {v} h =
      ground (arith, length-append d b, younger-append k d b {v = v})

  younger-lt-length : (k : K) (d : Dict K V) {v : V} → lookup k d ≡ some v → younger k d < length d
  unfolding younger lookup
  younger-lt-length k [] h = absurd (ground arith)
  younger-lt-length k ((j, w) ∷ d) {v} h = ground (arith, younger-lt-length k d {v = v})

  younger-erase : (k j : K) (d : Dict K V) → e.beq j k ≡ false → younger k (erase j d) ≤ younger k d
  unfolding younger erase
  younger-erase k j [] h = omega arith
  younger-erase k j ((i, w) ∷ d) h = ground (
    arith,
    e.beq_iff i j,
    e.beq_iff i k,
    e.beq_iff j k,
    length-erase-le j d,
    younger-erase k j d h,
  )

  younger-put_last :
      (k j : K) (w : V) (d : Dict K V) {v : V}
      → lookup k d ≡ some v
      → e.beq j k ≡ false
      → younger k (put_last j w d) ≤ younger k d + 1
  unfolding put_last
  younger-put_last k j w d {v} h ne =
      let kept : lookup k (erase j d) ≡ some v = rw (lookup-erase j k d) (rw ne h) in
      omega (arith, younger-append k (erase j d) ((j, w) ∷ []) kept, younger-erase k j d ne)

  younger_touched :
      (k : K) (v : V) (d : Dict K V) → lookup k d ≡ none → younger k (d ++ (k, v) ∷ []) ≡ 0
  unfolding younger lookup
  younger_touched k v [] h = rw (==_self k)
  younger_touched k v ((j, w) ∷ d) h = ground (arith, younger_touched k v d)

  drop_oldest_keeps :
      (k : K) (d : Dict K V) {v : V}
      → lookup k d ≡ some v
      → younger k d + 1 < length d
      → (lookup k (drop_oldest d) ≡ some v) × (younger k (drop_oldest d) ≡ younger k d)
  unfolding younger lookup
  drop_oldest_keeps k [] h y = absurd (omega arith)
  drop_oldest_keeps k ((i, w) ∷ d) h y = elim (Bool-cases (e.beq i k)) [
    | inl p ↦ absurd (ground arith)
    | inr p ↦ (ground arith, ground arith)
  ]

  lookup-longer :
      (k j : K) (w : V) (d : Dict K V) {v : V}
      → lookup k d ≡ some v
      → lookup k (d ++ (j, w) ∷ []) ≡ some v
  lookup-longer k j w d h = rw (lookup-append k d ((j, w) ∷ [])) (rw h)

  -- A write of another key leaves an entry that is not the oldest of a full cache, and makes it
  -- older by one place at most.
  set_item_keeps :
      (c : Lru K V) (k j : K) (v w : V)
      → IsValid c
      → lookup k c.entries ≡ some v
      → younger k c.entries + 1 < c.maxsize
      → e.beq j k ≡ false
      → (lookup k (set_item c j w).entries ≡ some v)
        × (younger k (set_item c j w).entries ≤ younger k c.entries + 1)
  set_item_keeps c k j v w valid h young ne = elim (Option-cases (lookup j c.entries)) [
    | inr (u, known) ↦
        rw (set_known c j w u known)
          (rw (lookup-put_last j k w c.entries) (rw ne h), younger-put_last k j w c.entries h ne)
    | inl new ↦ elim (Bool-cases (ltb c.maxsize (length c.entries + 1))) [
      | inl full ↦
          let longer = c.entries ++ (j, w) ∷ [] in
          let older : younger k longer ≡ younger k c.entries + 1 =
            younger-append k c.entries ((j, w) ∷ []) h in
          let (kept, same) =
            drop_oldest_keeps k longer (lookup-longer k j w c.entries h)
              (ground (arith, length-append c.entries ((j, w) ∷ []))) in
          rw (set_full c j w new (ground arith)) (kept, omega arith)
      | inr room ↦ rw (set_room c j w new (ground arith)) (
        lookup-longer k j w c.entries h,
        omega (arith, younger-append k c.entries ((j, w) ∷ []) h),
      )
    ]
  ]

  -- `cache[key] = value` for each pair in turn
  unfoldable pub writes : Lru K V → List (K × V) → Lru K V
  writes c [] = c
  writes c ((j, w) ∷ more) = writes (set_item c j w) more

  maxsize-set_item : (c : Lru K V) (j : K) (w : V) → (set_item c j w).maxsize ≡ c.maxsize
  unfolding set_item
  maxsize-set_item c j w = ground arith

  survives :
      (ops : List (K × V)) (c : Lru K V) (k : K) (v : V)
      → IsValid c
      → lookup k c.entries ≡ some v
      → younger k c.entries + length ops < c.maxsize
      → All (λ op. e.beq op.0 k ≡ false) ops
      → lookup k (writes c ops).entries ≡ some v
  unfolding writes
  survives [] c k v valid h young others = h
  survives ((j, w) ∷ ops) c k v valid h young others =
      let (kept, older) = set_item_keeps c k j v w valid h (omega arith) others.0 in
      survives ops (set_item c j w) k v (set_item-IsValid c j w valid) kept
        (omega (arith, maxsize-set_item c j w)) others.1

  younger-read : (k : K) (v : V) (d : Dict K V) → younger k (put_last k v d) ≡ 0
  unfolding put_last
  younger-read k v d =
      younger_touched k v (erase k d) (ground (arith, lookup-erase k k d, ==_self k))

  -- An entry that was just read from a valid cache is still there after fewer writes of other keys
  -- than the cache has places: only what was not touched for longest is evicted.
  pub read_survives :
      (c : Lru K V) (k : K) (v : V) (c' : Lru K V) (ops : List (K × V))
      → IsValid c
      → get_item c k ≡ some (v, c')
      → length ops < c.maxsize
      → All (λ op. e.beq op.0 k ≡ false) ops
      → lookup k (writes c' ops).entries ≡ some v
  unfolding get_item
  read_survives c k v c' ops valid h few others = elim (Option-cases (lookup k c.entries)) [
    | inl new ↦ absurd (ground arith)
    | inr (w, known) ↦
        let same : v ≡ w = ground arith in
        let after : c' ≡ record c { entries = put_last k w c.entries } = ground arith in
        rw after (
          rw same (
            survives ops (record c { entries = put_last k w c.entries }) k w
              (record {
                positive = valid.positive;
                bounded = omega (arith, length-put_last k w w c.entries known, valid.bounded);
                distinct = Distinct-put_last k w c.entries valid.distinct;
              })
              (rw (lookup-put_last k k w c.entries) (rw (==_self k)))
              (omega (arith, younger-read k w c.entries)) others))
  ]
