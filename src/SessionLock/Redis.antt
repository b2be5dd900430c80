-- ===== src/SessionLock/Redis.antt =====
-- The lock in Redis: one holder at a time as long as no held key lapses and Redis does not fail, and no
-- release or extension touches a key of another holder even where one does.
use backplaned_agents.Prelude.{
  ◌==◌, nat_eq, list_eq, option_eq, Text, text_iff, option_text_iff, Dict, Distinct, lookup-insert,
  lookup-erase, lookup-insert_self, lookup, insert, erase, ◌≡◌, refl, sym, ap, ◌∙◌, inl, inr, Bool,
  true, false, ◌&&◌, ◌||◌, none, some, List, [], ◌∷◌, arith, Bool-cases, Option-cases, some_inj,
  any, all, All,
}
use backplaned_agents.SessionLock.{
  Shared, set_nx, compare_and_act, holds, without_holder, SharedEvent, acquires, extends, releases,
  crashes, expires, lapses, fails_open, shared_step, shared_steps,
}

-- every holder has its token under its key, and no key has two holders
pub record IsExclusive (s : Shared) : Type 0 where
  pub backed : All (λ h. lookup h.0 s.keys ≡ some h.1) s.held
  pub single : Distinct s.held

abbrev pub is_orderly : SharedEvent → Bool
is_orderly (lapses key) = false
is_orderly (fails_open key token) = false
is_orderly _ = true

not_held :
    (key : Text) (keys : Dict Text Text) (held : List (Text × Text))
    → lookup key keys ≡ none
    → All (λ h. lookup h.0 keys ≡ some h.1) held
    → lookup key held ≡ none
unfolding lookup
not_held key keys [] e a = refl
not_held key keys (h ∷ held) e a = elim (Bool-cases (h.0 == key)) [
  | inl y ↦
      absurd (ground (arith, sym e ∙ ap (λ t. lookup t keys) (sym ((text_iff h.0 key).0 y)) ∙ a.0))
  | inr n ↦ rw n (not_held key keys held e a.1)
]

-- An extension or a release leaves every key alone that has another token, whoever set it and
-- whatever has happened before.
pub foreign_key_kept :
    (keys : Dict Text Text) (key token other holder : Text) (extend : Bool)
    → lookup other keys ≡ some holder
    → ¬ ((other ≡ key) × (holder ≡ token))
    → lookup other (compare_and_act keys key token extend).0 ≡ some holder
unfolding compare_and_act
foreign_key_kept keys key token other holder extend there foreign =
    elim (Bool-cases (lookup key keys == some token)) [
      | inr n ↦ rw n there
      | inl y ↦ elim (Bool-cases extend) [
        | inl x ↦ rw (y, x) there
        | inr x ↦ elim (Bool-cases (key == other)) [
          | inr n ↦ rw (y, x, lookup-erase key other keys, n) there
          | inl same ↦
              let key_is = (text_iff key other).0 same in
              let ours = (option_text_iff (lookup key keys) (some token)).0 y in
              absurd (
                foreign
                  (sym key_is, some_inj (sym there ∙ ap (λ t. lookup t keys) (sym key_is) ∙ ours)))
        ]
      ]
    ]

All-kept :
    (P Q : Text × Text → Type 0) (key token : Text) (held : List (Text × Text))
    → ((h : Text × Text) → (h.0 == key && h.1 == token) ≡ false → P h → Q h)
    → All P held
    → All Q (without_holder key token held)
All-kept P Q key token [] f a = tt
All-kept P Q key token (h ∷ held) f a = elim (Bool-cases (h.0 == key && h.1 == token)) [
  | inl y ↦ rw y (All-kept P Q key token held f a.1)
  | inr n ↦ rw n ((f h n a.0, All-kept P Q key token held f a.1))
]

absent_without :
    (other key token : Text) (held : List (Text × Text))
    → lookup other held ≡ none
    → lookup other (without_holder key token held) ≡ none
unfolding lookup
absent_without other key token [] e = refl
absent_without other key token (h ∷ held) e = elim (Bool-cases (h.0 == other)) [
  | inl y ↦ absurd (ground (arith, rw y at e))
  | inr n ↦ elim (Bool-cases (h.0 == key && h.1 == token)) [
    | inl y ↦ rw y (absent_without other key token held (rw n at e))
    | inr m ↦ rw m (rw n (absent_without other key token held (rw n at e)))
  ]
]

Distinct-without :
    (key token : Text) (held : List (Text × Text))
    → Distinct held
    → Distinct (without_holder key token held)
Distinct-without key token [] d = tt
Distinct-without key token (h ∷ held) d = elim (Bool-cases (h.0 == key && h.1 == token)) [
  | inl y ↦ rw y (Distinct-without key token held d.1)
  | inr n ↦ rw n ((absent_without h.0 key token held d.0, Distinct-without key token held d.1))
]

pub not_both :
    (h : Text × Text) (key token : Text)
    → (h.0 == key && h.1 == token) ≡ false
    → ¬ ((h.0 ≡ key) × (h.1 ≡ token))
not_both h key token n (k, t) =
    absurd (ground (arith, n, (text_iff h.0 key).1 k, (text_iff h.1 token).1 t))

All-others :
    (key token : Text) (keys : Dict Text Text) (held : List (Text × Text))
    → lookup key keys ≡ none
    → All (λ h. lookup h.0 keys ≡ some h.1) held
    → All (λ h. lookup h.0 (insert key token keys) ≡ some h.1) held
All-others key token keys [] e a = tt
All-others key token keys (h ∷ held) e a = (
  elim (Bool-cases (key == h.0)) [
    | inl y ↦
        absurd (ground (arith, sym e ∙ ap (λ t. lookup t keys) ((text_iff key h.0).0 y) ∙ a.0))
    | inr n ↦ rw (lookup-insert key h.0 token keys, n) a.0
  ],
  All-others key token keys held e a.1,
)

other_key : (a key : Text) (rest : Bool) → (a == key || rest) ≡ false → (key == a) ≡ false
other_key a key rest n = ground (arith, text_iff a key, text_iff key a)

All-unheld :
    (key : Text) (keys : Dict Text Text) (held : List (Text × Text))
    → any (λ h. h.0 == key) held ≡ false
    → All (λ h. lookup h.0 keys ≡ some h.1) held
    → All (λ h. lookup h.0 (erase key keys) ≡ some h.1) held
All-unheld key keys [] n a = tt
All-unheld key keys (h ∷ held) n a = (
  rw (lookup-erase key h.0 keys, other_key h.0 key (any (λ x. x.0 == key) held) n) a.0,
  All-unheld key keys held (ground (arith, n)) a.1,
)

module _ (s : Shared) (x : IsExclusive s) where
  acquire-IsExclusive : (key token : Text) → IsExclusive (shared_step s (acquires key token))
  unfolding shared_step set_nx
  acquire-IsExclusive key token = elim (Option-cases (lookup key s.keys)) [
    | inr (other, e) ↦ rw (e, set_nx) x
    | inl e ↦
        rw (e, set_nx)
          (record {
            backed = (
              lookup-insert_self key token s.keys,
              All-others key token s.keys s.held e x.backed,
            );
            single = (not_held key s.keys s.held e x.backed, x.single);
          })
  ]

  extend-IsExclusive : (key token : Text) → IsExclusive (shared_step s (extends key token))
  unfolding shared_step compare_and_act
  extend-IsExclusive key token = elim (Bool-cases (lookup key s.keys == some token)) [
    | inl y ↦ rw y x
    | inr n ↦ rw n x
  ]

  release-IsExclusive : (key token : Text) → IsExclusive (shared_step s (releases key token))
  unfolding shared_step
  release-IsExclusive key token = elim (Bool-cases (holds key token s.held)) [
    | inr n ↦ rw n x
    | inl y ↦ rw y (record {
      backed =
          All-kept _ _ key token s.held
            (λ h n a. foreign_key_kept s.keys key token h.0 h.1 false a (not_both h key token n))
            x.backed;
      single = Distinct-without key token s.held x.single;
    })
  ]

  crash-IsExclusive : (key token : Text) → IsExclusive (shared_step s (crashes key token))
  unfolding shared_step
  crash-IsExclusive key token = record {
    backed = All-kept _ _ key token s.held (λ h n a. a) x.backed;
    single = Distinct-without key token s.held x.single;
  }

  expire-IsExclusive : (key : Text) → IsExclusive (shared_step s (expires key))
  unfolding shared_step
  expire-IsExclusive key = elim (Bool-cases (any (λ h. h.0 == key) s.held)) [
    | inl y ↦ rw y x
    | inr n ↦ rw n (record { backed = All-unheld key s.keys s.held n x.backed; single = x.single })
  ]

step-IsExclusive :
    (s : Shared) (e : SharedEvent)
    → is_orderly e ≡ true
    → IsExclusive s
    → IsExclusive (shared_step s e)
step-IsExclusive s (acquires key token) h x = acquire-IsExclusive s x key token
step-IsExclusive s (extends key token) h x = extend-IsExclusive s x key token
step-IsExclusive s (releases key token) h x = release-IsExclusive s x key token
step-IsExclusive s (crashes key token) h x = crash-IsExclusive s x key token
step-IsExclusive s (expires key) h x = expire-IsExclusive s x key
step-IsExclusive s (lapses key) h x = absurd (ground (arith, h))
step-IsExclusive s (fails_open key token) h x = absurd (ground (arith, h))

-- As long as no key lapses under its holder and Redis does not fail while a guard asks for a key, no
-- session has two holders among all instances, and each holder has its token under its key: whatever
-- is acquired, extended, released, lost in a crash and expired.
pub one_holder :
    (s : Shared) (more : List SharedEvent)
    → all is_orderly more ≡ true
    → IsExclusive s
    → IsExclusive (shared_steps s more)
unfolding shared_steps
one_holder s [] h x = x
one_holder s (e ∷ more) h x = elim (Bool-cases (is_orderly e)) [
  | inl y ↦ one_holder (shared_step s e) more (rw y at h) (step-IsExclusive s e y x)
  | inr n ↦ absurd (ground (arith, rw n at h))
]
