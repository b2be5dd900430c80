-- ===== src/SessionLock/Undisturbed.antt =====
-- A guard that has the key in Redis keeps it, whatever the guards do that have lost theirs.
use backplaned_agents.Prelude.{
  ◌==◌, nat_eq, list_eq, option_eq, Text, text_iff, lookup-insert, lookup-erase, lookup, ◌≡◌, refl,
  sym, ap, ◌∙◌, inl, inr, Bool, true, false, not, ◌&&◌, ◌||◌, some, List, [], ◌∷◌, arith,
  Bool-cases, Option-cases, any, all,
}
use backplaned_agents.SessionLock.{
  Shared, set_nx, compare_and_act, holds, without_holder, SharedEvent, acquires, extends, releases,
  crashes, expires, lapses, fails_open, shared_step, shared_steps,
}
use backplaned_agents.SessionLock.Redis.{foreign_key_kept, not_both}

-- the guard with this token is a holder, and its token stands under the key
abbrev pub IsBacked : Shared → Text → Text → Type 0
IsBacked s key token = (holds key token s.held ≡ true) × (lookup key s.keys ≡ some token)

-- neither gives the guard its key back, nor does its instance go, nor does the key lapse
abbrev pub spares : Text → Text → SharedEvent → Bool
spares key token (releases k t) = not (k == key && t == token)
spares key token (crashes k t) = not (k == key && t == token)
spares key token (lapses k) = not (k == key)
spares key token _ = true

holder_any :
    (key token : Text) (held : List (Text × Text))
    → holds key token held ≡ true
    → any (λ h. h.0 == key) held ≡ true
holder_any key token [] h = absurd (ground (arith, h))
holder_any key token (x ∷ held) h = ground (arith, h, holder_any key token held)

apart_absorbs :
    (x : Text × Text) (key token k t : Text) (rest : Bool)
    → (x.0 == k && x.1 == t) ≡ true
    → (k == key && t == token) ≡ false
    → (x.0 == key && x.1 == token || rest) ≡ true
    → rest ≡ true
apart_absorbs x key token k t rest y n h = ground (
  arith,
  y,
  n,
  h,
  text_iff x.0 k,
  text_iff x.1 t,
  text_iff x.0 key,
  text_iff x.1 token,
  text_iff k key,
  text_iff t token,
)

kept_head :
    (here rest rest' : Bool)
    → (here || rest) ≡ true
    → (rest ≡ true → rest' ≡ true)
    → (here || rest') ≡ true
kept_head true rest rest' h f = refl
kept_head false rest rest' h f = f h

differ : (a : Bool) → not a ≡ true → a ≡ false
differ a h = ground (arith, h)

holds_without :
    (key token k t : Text) (held : List (Text × Text))
    → (k == key && t == token) ≡ false
    → holds key token held ≡ true
    → holds key token (without_holder k t held) ≡ true
holds_without key token k t [] n h = absurd (ground (arith, h))
holds_without key token k t (x ∷ held) n h = elim (Bool-cases (x.0 == k && x.1 == t)) [
  | inl y ↦ rw y (
      holds_without key token k t held n
        (apart_absorbs x key token k t (holds key token held) y n h))
  | inr m ↦ rw m (
      kept_head (x.0 == key && x.1 == token) (holds key token held) _ h
        (λ h'. holds_without key token k t held n h'))
]

module _ (s : Shared) (key token : Text) (b : IsBacked s key token) where
  acquire_keeps : (k t : Text) → IsBacked (shared_step s (acquires k t)) key token
  unfolding shared_step set_nx
  acquire_keeps k t = elim (Option-cases (lookup k s.keys)) [
    | inr (other, e) ↦ rw (e, set_nx) b
    | inl e ↦ elim (Bool-cases (k == key)) [
      | inl y ↦
          absurd (ground (arith, sym e ∙ ap (λ x. lookup x s.keys) ((text_iff k key).0 y) ∙ b.1))
      | inr n ↦ rw (e, set_nx) ((ground (arith, b.0), rw (lookup-insert k key t s.keys, n) b.1))
    ]
  ]

  release_keeps :
      (k t : Text)
      → not (k == key && t == token) ≡ true
      → IsBacked (shared_step s (releases k t)) key token
  unfolding shared_step
  release_keeps k t h = elim (Bool-cases (holds k t s.held)) [
    | inr n ↦ rw n b
    | inl y ↦ rw y (
        (
          holds_without key token k t s.held (differ _ h) b.0,
          foreign_key_kept s.keys k t key token false b.1
              (λ same. not_both (k, t) key token (differ _ h) (sym same.0, sym same.1)),
        ))
  ]

  expire_keeps : (k : Text) → IsBacked (shared_step s (expires k)) key token
  unfolding shared_step
  expire_keeps k = elim (Bool-cases (any (λ h. h.0 == k) s.held)) [
    | inl y ↦ rw y b
    | inr n ↦ elim (Bool-cases (k == key)) [
      | inl y ↦ absurd (
          ground (
            arith,
            holder_any key token s.held b.0,
            ap (λ x. any (λ h. h.0 == x) s.held) (sym ((text_iff k key).0 y)),
            n,
          ))
      | inr m ↦ rw n ((b.0, rw (lookup-erase k key s.keys, m) b.1))
    ]
  ]

  extend_keeps : (k t : Text) → IsBacked (shared_step s (extends k t)) key token
  unfolding shared_step compare_and_act
  extend_keeps k t = elim (Bool-cases (lookup k s.keys == some t)) [
    | inl y ↦ rw y b
    | inr n ↦ rw n b
  ]

  step_keeps : (e : SharedEvent) → spares key token e ≡ true → IsBacked (shared_step s e) key token
  unfolding shared_step
  step_keeps (acquires k t) h = acquire_keeps k t
  step_keeps (extends k t) h = extend_keeps k t
  step_keeps (releases k t) h = release_keeps k t h
  step_keeps (crashes k t) h = (holds_without key token k t s.held (differ _ h) b.0, b.1)
  step_keeps (expires k) h = expire_keeps k
  step_keeps (lapses k) h = (b.0, rw (lookup-erase k key s.keys, differ _ h) b.1)
  step_keeps (fails_open k t) h = (ground (arith, b.0), b.1)

-- A guard that is a holder with its token under the key stays one until it gives the key back, its
-- instance goes or the key lapses: whatever other guards acquire, extend and release, also those that
-- have lost their key or went on without one.
pub holder_undisturbed :
    (s : Shared) (more : List SharedEvent) (key token : Text)
    → all (spares key token) more ≡ true
    → IsBacked s key token
    → IsBacked (shared_steps s more) key token
unfolding shared_steps
holder_undisturbed s [] key token h b = b
holder_undisturbed s (e ∷ more) key token h b = elim (Bool-cases (spares key token e)) [
  | inl y ↦
      holder_undisturbed (shared_step s e) more key token (rw y at h) (step_keeps s key token b e y)
  | inr n ↦ absurd (ground (arith, rw n at h))
]
