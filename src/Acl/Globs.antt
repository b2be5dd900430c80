-- ===== src/Acl/Globs.antt =====
-- What the patterns match: the slash form with a glob, and the shape of every valid pattern.
use backplaned_agents.Prelude.{
  ◌==◌, nat_eq, list_eq, option_eq, Text, codes, append-strip_prefix, starts_with, strip_prefix,
  partition, ==_self, ℕ, ◌-◌, ◌≡◌, refl, ap, ◌⊎◌, inl, inr, Bool, true, false, ◌&&◌, none, List, [],
  ◌∷◌, ◌++◌, append_assoc, arith, if◌then◌else◌, Bool-cases, Option-cases, length, take, any,
  length-append, contains,
}
use backplaned_agents.Acl.Grammar.{
  is_agent_id, is_valid_pattern, is_valid_slash, ends_in_glob, drop_last,
}
use backplaned_agents.Acl.Rules.{AgentView, matches, group_ok, cap_ok}

-- `partition` splits at the first separator, and nowhere else.
partition-append :
    (sep : ℕ) (a b : Text) → contains a sep ≡ false → partition sep (a ++ sep ∷ b) ≡ (a, b)
unfolding partition
partition-append sep [] b h = ground (arith, ==_self sep)
partition-append sep (c ∷ a) b h = ground (arith, partition-append sep a b)

partition_split :
    (sep : ℕ) (s : Text)
    → contains s sep ≡ true
    → (s ≡ (partition sep s).0 ++ sep ∷ (partition sep s).1)
      × (contains (partition sep s).0 sep ≡ false)
unfolding partition
partition_split sep [] h = absurd (cc)
partition_split sep (c ∷ s) h = ground (arith, partition_split sep s)

ends_in_glob-append : (s : Text) → ends_in_glob (s ++ codes ".*") ≡ true
unfolding ends_in_glob
ends_in_glob-append [] = refl
ends_in_glob-append (c ∷ s) = ground (arith, ends_in_glob-append s)

take-append : (a b : Text) → take (length a) (a ++ b) ≡ a
take-append [] b = refl
take-append (c ∷ a) b = ap (◌∷◌ c) (take-append a b)

drop_last-append : (a b : Text) → drop_last (length b) (a ++ b) ≡ a
drop_last-append a b =
    let e : length (a ++ b) - length b ≡ length a = omega (arith, length-append a b) in
    rw e (take-append a b)

glob_not_star : (p : Text) → ((p ++ codes ".*") == codes "*") ≡ false
glob_not_star [] = refl
glob_not_star (c ∷ []) = ground arith
glob_not_star (c ∷ d ∷ p) = ground arith

-- The glob half `prefix.*` asks for a capability that starts with `prefix.`, dot included.
pub cap_ok-glob :
    (p : Text) (capabilities : List Text)
    → cap_ok (p ++ codes ".*") capabilities ≡ any (starts_with (p ++ codes ".")) capabilities
unfolding cap_ok
cap_ok-glob p capabilities =
    let e : drop_last 1 (p ++ codes ".*") ≡ p ++ codes "." =
      rw (append_assoc p (codes ".") (codes "*")) at
        (drop_last-append (p ++ codes ".") (codes "*")) in
    rw (glob_not_star p) (rw (ends_in_glob-append p) (rw e))

-- `any` finds a list member
pub any_witness {ℓ} :
    {A : Type ℓ} (p : A → Bool) (xs : List A)
    → any p xs ≡ true
    → (before : List A) × (x : A) × (after : List A) × (xs ≡ before ++ x ∷ after) × (p x ≡ true)
any_witness p [] h = absurd (cc)
any_witness p (x ∷ xs) h = elim (Bool-cases (p x)) [
  | inl e ↦ ([], x, xs, refl, e)
  | inr e ↦
      let (before, y, after, split, q) = any_witness p xs (rw e at h) in
      (x ∷ before, y, after, ap (◌∷◌ x) split, q)
]

starts_with_rest : (p s : Text) → starts_with p s ≡ true → (r : Text) × (s ≡ p ++ r)
unfolding starts_with
starts_with_rest [] s h = (s, refl)
starts_with_rest (c ∷ p) [] h = absurd (cc)
starts_with_rest (c ∷ p) (d ∷ s) h =
    let (r, e) = starts_with_rest p s (ground arith) in (r, ground arith)

-- what stands on the two sides of the slash of a pattern
pub record IsSlash (pattern : Text) : Type 0 where
  pub group_part : Text
  pub cap_part : Text
  pub split : pattern ≡ group_part ++ b'/' ∷ cap_part
  pub one_slash : contains group_part b'/' ≡ false
  pub no_more : contains cap_part b'/' ≡ false

both_tests :
    (a b c : Bool) → (if a then if b then false else c else false) ≡ true → (a ≡ true) × (b ≡ false)
both_tests a b c h = ground arith

valid_slash_tests :
    (pattern : Text)
    → is_valid_slash pattern ≡ true
    → (contains pattern b'/' ≡ true) × (contains (partition b'/' pattern).1 b'/' ≡ false)
unfolding is_valid_slash
valid_slash_tests pattern h =
    both_tests (contains pattern b'/') (contains (partition b'/' pattern).1 b'/') _ h

valid-IsSlash_shape : (pattern : Text) → is_valid_slash pattern ≡ true → IsSlash pattern
valid-IsSlash_shape pattern h =
    let (slash, no_more) = valid_slash_tests pattern h in
    let (split, one) = partition_split b'/' pattern slash in
    record {
      group_part = (partition b'/' pattern).0;
      cap_part = (partition b'/' pattern).1;
      split = split;
      one_slash = one;
      no_more = no_more;
    }

-- A valid pattern is `@` with an agent id behind it, or has exactly one slash.
pub is_valid_pattern_shape :
    (pattern : Text)
    → is_valid_pattern pattern ≡ true
    → ((agent_id : Text) × (pattern ≡ codes "@" ++ agent_id) × (is_agent_id agent_id ≡ true))
      ⊎ IsSlash pattern
unfolding is_valid_pattern
is_valid_pattern_shape pattern h = elim (Option-cases (strip_prefix (codes "@") pattern)) [
  | inl e ↦ inr (valid-IsSlash_shape pattern (rw (e, is_valid_pattern) at h))
  | inr (agent_id, e) ↦
      inl (agent_id, append-strip_prefix (codes "@") pattern e, rw (e, is_valid_pattern) at h)
]

-- A pattern `group/prefix.*` whose group has no slash and no `@` in front matches an agent exactly when the agent is in the group, or the group
-- is `*`, and one of its capabilities starts with `prefix.`.
pub matches-glob :
    (group p : Text) (view : AgentView)
    → strip_prefix (codes "@") (group ++ b'/' ∷ (p ++ codes ".*")) ≡ none
    → contains group b'/' ≡ false
    → matches (group ++ b'/' ∷ (p ++ codes ".*")) view
      ≡ (group_ok group view.groups && any (starts_with (p ++ codes ".")) view.capabilities)
unfolding matches
matches-glob group p view h k =
    rw (h, matches)
      (rw (partition-append b'/' group (p ++ codes ".*") k) (rw (cap_ok-glob p view.capabilities)))
