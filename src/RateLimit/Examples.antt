-- ===== src/RateLimit/Examples.antt =====
-- The bound on the token bucket at a concrete memory.
use backplaned_agents.Prelude.{
  nat_eq, list_eq, option_eq, Text, codes, lookup, ◌≤◌, refl, List, [], ◌∷◌,
}
use backplaned_agents.Lru.{Lru}
use backplaned_agents.RateLimit.{Bucket, Limit, full_key}
use backplaned_agents.RateLimit.Bounds.{Request, spent, spent_bound}

program : Unit {0}
unfolding lookup
program = tt

abbrev bucket : Bucket
bucket = record { tokens = 3; ts = 10 }

abbrev limit : Limit
limit = record { rate_per_s = 2; burst = 5 }

abbrev mem : Lru Text Bucket
mem = record { maxsize = 4; entries = (full_key (codes "q") (codes "u"), bucket) ∷ [] }

-- one call at once, and one after four ticks
abbrev requests : List Request
requests = record { gap = 0; cost = 3 } ∷ record { gap = 4; cost = 6 } ∷ []

spent_bound_example : spent mem (codes "q") (codes "u") limit 10 requests ≤ 11
unfolding program
spent_bound_example = spent_bound requests mem (codes "q") (codes "u") limit bucket refl refl
