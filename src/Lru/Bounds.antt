-- ===== src/Lru/Bounds.antt =====
-- The cache stays within its size, and what can be read after a call.
use backplaned_agents.Prelude.{
  Eq, nat_eq, list_eq, option_eq, Dict, Distinct, lookup-append, length-erase-lt, Distinct-erase,
  Distinct-last, lookup-erase, ==_self, lookup, erase, ℕ, suc, ◌+◌, ◌≤◌, ◌<◌, ◌≡◌, inl, inr, true,
  false, none, some, List, [], ◌∷◌, ◌++◌, arith, ltb, if◌then◌else◌, Bool-cases, Option-cases,
  length, length-append,
}
use backplaned_agents.Lru.{Lru, drop_oldest, put_last, get_item, set_item}

pub record IsValid {ℓ κ} {K : Type ℓ} {V : Type κ} ⦃e : Eq K⦄ (c : Lru K V) : Type κ where
  pub positive : 1 ≤ c.maxsize
  pub bounded : length c.entries ≤ c.maxsize
  pub distinct : Distinct c.entries

module _ {ℓ κ} {K : Type ℓ} {V : Type κ} ⦃e : Eq K⦄ where
  pub length-put_last :
      (k : K) (v w : V) (d : Dict K V) → lookup k d ≡ some w → length (put_last k v d) ≤ length d
  unfolding put_last
  length-put_last k v w d h =
      omega (arith, length-append (erase k d) ((k, v) ∷ []), length-erase-lt k d h)

  pub Distinct-put_last : (k : K) (v : V) (d : Dict K V) → Distinct d → Distinct (put_last k v d)
  unfolding put_last
  Distinct-put_last k v d h =
      Distinct-last k v (erase k d) (ground (arith, lookup-erase k k d, ==_self k))
        (Distinct-erase k d h)

  pub lookup-put_last :
      (k j : K) (v : V) (d : Dict K V)
      → lookup j (put_last k v d) ≡ (if e.beq k j then some v else lookup j d)
  unfolding put_last lookup
  lookup-put_last k j v d =
      ground (arith, lookup-append j (erase k d) ((k, v) ∷ []), lookup-erase k j d)

  Distinct-drop : (d : Dict K V) → Distinct d → Distinct (drop_oldest d)
  Distinct-drop [] h = h
  Distinct-drop (x ∷ d) h = h.1

length-drop {ℓ} : {A : Type ℓ} (d : List A) (n : ℕ) → length d ≤ suc n → length (drop_oldest d) ≤ n
length-drop [] n h = omega arith
length-drop (x ∷ d) n h = omega arith

module _ {ℓ κ} {K : Type ℓ} {V : Type κ} ⦃e : Eq K⦄ (c : Lru K V) (k : K) where
  -- The three outcomes of a write.
  pub set_known :
      (v w : V)
      → lookup k c.entries ≡ some w
      → set_item c k v ≡ record c { entries = put_last k v c.entries }
  unfolding set_item
  set_known v w h = rw (h, set_item)

  pub set_full :
      (v : V)
      → lookup k c.entries ≡ none
      → c.maxsize < length c.entries + 1
      → set_item c k v ≡ record c { entries = drop_oldest (c.entries ++ (k, v) ∷ []) }
  unfolding set_item
  set_full v h full =
      let over : ltb c.maxsize (length (c.entries ++ (k, v) ∷ [])) ≡ true =
        ground (arith, length-append c.entries ((k, v) ∷ [])) in
      rw (h, set_item) (rw over)

  pub set_room :
      (v : V)
      → lookup k c.entries ≡ none
      → length c.entries + 1 ≤ c.maxsize
      → set_item c k v ≡ record c { entries = c.entries ++ (k, v) ∷ [] }
  unfolding set_item
  set_room v h room =
      let fits : ltb c.maxsize (length (c.entries ++ (k, v) ∷ [])) ≡ false =
        ground (arith, length-append c.entries ((k, v) ∷ [])) in
      rw (h, set_item) (rw fits)

  -- A write keeps the cache valid: never more entries than the size, no key twice.
  pub set_item-IsValid : (v : V) → IsValid c → IsValid (set_item c k v)
  set_item-IsValid v h = elim (Option-cases (lookup k c.entries)) [
    | inr (w, known) ↦ rw (set_known v w known) (record {
      positive = h.positive;
      bounded = omega (arith, length-put_last k v w c.entries known, h.bounded);
      distinct = Distinct-put_last k v c.entries h.distinct;
    })
    | inl new ↦ elim (Bool-cases (ltb c.maxsize (length c.entries + 1))) [
      | inl full ↦ rw (set_full v new (ground arith)) (record {
        positive = h.positive;
        bounded =
            length-drop (c.entries ++ (k, v) ∷ []) c.maxsize
              (omega (arith, length-append c.entries ((k, v) ∷ []), h.bounded));
        distinct =
            Distinct-drop (c.entries ++ (k, v) ∷ []) (Distinct-last k v c.entries new h.distinct);
      })
      | inr room ↦ rw (set_room v new (ground arith)) (record {
        positive = h.positive;
        bounded = ground (arith, length-append c.entries ((k, v) ∷ []));
        distinct = Distinct-last k v c.entries new h.distinct;
      })
    ]
  ]

  -- A read keeps the cache valid and returns the stored value, and no key's value changes.
  pub get_item_lem :
      (v : V)
      → lookup k c.entries ≡ some v
      → IsValid c
      → (c' : Lru K V) × (get_item c k ≡ some (v, c'))
        × IsValid c'
        × ((j : K) → lookup j c'.entries ≡ lookup j c.entries)
  unfolding get_item
  get_item_lem v h valid = (
    record c { entries = put_last k v c.entries },
    rw (h, get_item),
    record {
      positive = valid.positive;
      bounded = omega (arith, length-put_last k v v c.entries h, valid.bounded);
      distinct = Distinct-put_last k v c.entries valid.distinct;
    },
    λ j. ground (arith, lookup-put_last k j v c.entries, e.beq_iff k j),
  )
