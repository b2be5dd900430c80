-- ===== src/FileStore/Names.antt =====
-- The names of stored files as callers write them.
use backplaned_agents.Prelude.{
  nat_eq, list_eq, option_eq, Text, strip_prefix-append, append-strip_prefix, strip_prefix, ◌≡◌,
  refl, sym, ap, ◌∙◌, ◌↔◌, inl, inr, Bool, true, false, none, some, ◌++◌, arith, Bool-cases,
  Option-cases, some_inj,
}
use backplaned_agents.FileStore.{
  persist_prefix, valid_bare_filename, checked, split_stash_name, display_name,
}

-- the prefix has a slash, which no bare file name has
valid-unprefixed :
    (bare : Text) → valid_bare_filename bare ≡ true → strip_prefix persist_prefix bare ≡ none
unfolding valid_bare_filename
valid-unprefixed bare ok = elim (Option-cases (strip_prefix persist_prefix bare)) [
  | inl e ↦ e
  | inr (r, e) ↦
      absurd (ground (arith, rw (append-strip_prefix persist_prefix bare {r = r} e) at ok))
]

checked-reads :
    (p persistent : Bool) (name bare : Text)
    → checked p name ≡ some (persistent, bare)
    → (persistent ≡ p) × (bare ≡ name) × (valid_bare_filename name ≡ true)
checked-reads p persistent name bare h = elim (Bool-cases (valid_bare_filename name)) [
  | inl y ↦
      let same = some_inj (rw y at h) in (sym (ap (λ x. x.0) same), sym (ap (λ x. x.1) same), y)
  | inr n ↦ absurd (ground (arith, rw n at h))
]

prefixed-splits :
    (name r : Text)
    → strip_prefix persist_prefix name ≡ some r
    → split_stash_name name ≡ checked true r
unfolding split_stash_name
prefixed-splits name r h = rw h refl

unprefixed-splits :
    (name : Text)
    → strip_prefix persist_prefix name ≡ none
    → split_stash_name name ≡ checked false name
unfolding split_stash_name
unprefixed-splits name h = rw h refl

displayed-splits :
    (bare : Text) (persistent : Bool)
    → valid_bare_filename bare ≡ true
    → split_stash_name (display_name persistent bare) ≡ some (persistent, bare)
unfolding split_stash_name display_name
displayed-splits bare true ok =
    prefixed-splits (persist_prefix ++ bare) bare (strip_prefix-append persist_prefix bare)
    ∙ rw ok refl
displayed-splits bare false ok = unprefixed-splits bare (valid-unprefixed bare ok) ∙ rw ok refl

split-displays :
    (name bare : Text) (persistent : Bool)
    → split_stash_name name ≡ some (persistent, bare)
    → (name ≡ display_name persistent bare) × (valid_bare_filename bare ≡ true)
unfolding split_stash_name display_name
split-displays name bare persistent h = elim (Option-cases (strip_prefix persist_prefix name)) [
  | inl e ↦
      let (p, b, ok) = checked-reads false persistent name bare (rw e at h) in
      (rw (p, b) refl, rw b ok)
  | inr (r, e) ↦
      let (p, b, ok) = checked-reads true persistent r bare (rw e at h) in
      (rw (p, b) (append-strip_prefix persist_prefix name {r = r} e), rw b ok)
]

-- A name is read as a scope and a bare file name exactly when it is what they are displayed as and the
-- bare file name is valid.
pub split_stash_name_iff :
    (name bare : Text) (persistent : Bool)
    → (split_stash_name name ≡ some (persistent, bare))
      ↔ ((name ≡ display_name persistent bare) × (valid_bare_filename bare ≡ true))
split_stash_name_iff name bare persistent = (
  split-displays name bare persistent,
  λ (same, ok). rw same (displayed-splits bare persistent ok),
)
