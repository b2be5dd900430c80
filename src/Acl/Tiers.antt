-- ===== src/Acl/Tiers.antt =====
-- The evaluator over the levels of a deployment.
use backplaned_agents.Prelude.{
  ◌==◌, nat_eq, list_eq, option_eq, Text, text_iff, codes, read-decimal, read_digits, decimal, ℕ,
  zero, suc, ◌+◌, ◌≤◌, ◌≡◌, refl, ap, true, ◌&&◌, some, List, [], ◌∷◌, arith, ltb, leb, eqb, any,
  contains, All, pos,
}
use backplaned_agents.Principals.{is_valid_level}
use backplaned_agents.Principals.Spelling.{admin, service, tier, spell}
use backplaned_agents.Principals.Levels.{spell-is_valid, tier_passes_more}
use backplaned_agents.Acl.Rules.{allow, Rule, AgentView}
use backplaned_agents.Acl.Eval.{decide, tier_names, deployment_levels}
use backplaned_agents.Acl.Walks.{fires, decide-allow_only}

module _ (caller callee : AgentView) (m n : ℕ) (le : m ≤ n) where
  fires_more :
      (rule : Rule)
      → fires caller callee (some (spell (tier n))) rule ≡ true
      → fires caller callee (some (spell (tier m))) rule ≡ true
  fires_more rule h = ground (arith, tier_passes_more m n rule.user_level le)

  any-fires_more :
      (rules : List Rule)
      → any (fires caller callee (some (spell (tier n)))) rules ≡ true
      → any (fires caller callee (some (spell (tier m)))) rules ≡ true
  any-fires_more [] h = h
  any-fires_more (r ∷ rules) h = ground (arith, fires_more r, any-fires_more rules)

-- While all rules allow, a more privileged tier may call whatever a less privileged one may.
pub allow_only_mono :
    (rules : List Rule) (caller callee : AgentView) (m n : ℕ)
    → All (λ r. r.effect ≡ allow) rules
    → m ≤ n
    → (decide rules caller callee (some (spell (tier n)))).allow ≡ true
    → (decide rules caller callee (some (spell (tier m)))).allow ≡ true
allow_only_mono rules caller callee m n h le k = ground (
  arith,
  decide-allow_only caller callee (some (spell (tier n))) rules h,
  decide-allow_only caller callee (some (spell (tier m))) rules h,
  any-fires_more caller callee m n le rules,
)

decimal_injective : (i k : ℕ) → decimal i ≡ decimal k → i ≡ k
decimal_injective i k h = cc (ap (read_digits 0) h, read-decimal i, read-decimal k)

decimal_eq : (i k : ℕ) → (decimal i == decimal k) ≡ eqb i k
decimal_eq i k =
    ground
      (arith, text_iff (decimal i) (decimal k), decimal_injective i k, ap decimal {x = i} {y = k})

tier_names_iff :
    (i n k : ℕ) → contains (tier_names i n) (spell (tier k)) ≡ (leb i k && ltb k (i + n))
unfolding tier_names spell
tier_names_iff i zero k = ground arith
tier_names_iff i (suc n) k = rw (decimal_eq i k) (rw (tier_names_iff (i + 1) n k) (ground arith))

tier_names_valid : (i n : ℕ) → All (λ l. is_valid_level l ≡ true) (tier_names i n)
unfolding tier_names spell
tier_names_valid i zero = tt
tier_names_valid i (suc n) = (spell-is_valid (tier i), tier_names_valid (i + 1) n)

level_names_iff :
    (max_tier k : ℕ)
    → contains (codes "admin" ∷ codes "service" ∷ tier_names 0 (max_tier + 1)) (spell (tier k))
      ≡ leb k max_tier
unfolding spell
level_names_iff max_tier k = rw (tier_names_iff 0 (max_tier + 1) k) (ground arith)

-- The levels of a deployment are valid, and hold exactly the tiers up to the maximum.
pub deployment_levels_lem :
    (max_tier : ℕ)
    → (levels : List Text) × (deployment_levels (pos max_tier) ≡ some levels)
      × All (λ l. is_valid_level l ≡ true) levels
      × ((k : ℕ) → contains levels (spell (tier k)) ≡ leb k max_tier)
unfolding deployment_levels spell
deployment_levels_lem max_tier = (
  codes "admin" ∷ codes "service" ∷ tier_names 0 (max_tier + 1),
  refl,
  (spell-is_valid admin, (spell-is_valid service, tier_names_valid 0 (max_tier + 1))),
  level_names_iff max_tier,
)
