-- ===== src/Principals/Examples.antt =====
-- Runs of the tests on levels, and the theorems at concrete levels.
use backplaned_agents.Prelude.{nat_eq, list_eq, option_eq, codes, ◌≡◌, refl, true, false, some, pos}
use backplaned_agents.Principals.{is_valid_level, user_level_satisfies, tier_index}
use backplaned_agents.Principals.Spelling.{tier, spell, satisfies}
use backplaned_agents.Principals.Levels.{user_level_satisfies-spell}

level_runs :
    (is_valid_level (codes "tier12") ≡ true)
    × (is_valid_level (codes "tier") ≡ false)
    × (is_valid_level (codes "admins") ≡ false)
    × (tier_index (some (codes "tier12")) ≡ some (pos 12))
unfolding is_valid_level tier_index
level_runs = (refl, refl, refl, refl)

user_level_satisfies-spell_example :
    user_level_satisfies (some (spell (tier 1))) (spell (tier 2)) ≡ satisfies (tier 1) (tier 2)
user_level_satisfies-spell_example = user_level_satisfies-spell (tier 1) (tier 2)
