-- ===== src/Delivery/Examples.antt =====
-- The theorems on delivery at concrete sockets.
use backplaned_agents.Prelude.{
  nat_eq, list_eq, option_eq, Text, codes, lookup, ℕ, List, [], ◌∷◌, arith,
}
use backplaned_agents.Delivery.{Socket, Hub}
use backplaned_agents.Delivery.Bounds.{IsBounded}

-- a socket with one frame in a queue for one, and an empty one
abbrev busy : Socket ℕ
busy = record { outbox = 5 ∷ []; capacity = 1; inflight = [] }

abbrev hub : Hub ℕ ℕ
hub = record {
  sockets =
      (codes "a", busy) ∷ (codes "b", record { outbox = []; capacity = 2; inflight = [] }) ∷ [];
  acks = record { pending = []; futures = []; default_timeout = 30 };
  dropped = 0;
}

hub-IsBounded : IsBounded hub
unfolding lookup
hub-IsBounded id s h = ground (arith, h)

abbrev all_three : List Text
all_three = codes "a" ∷ codes "b" ∷ codes "z" ∷ []
