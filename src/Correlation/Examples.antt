-- ===== src/Correlation/Examples.antt =====
-- The theorems on the map, at a small one.
use backplaned_agents.Prelude.{
  nat_eq, list_eq, option_eq, Text, codes, lookup, ◌≡◌, refl, inl, none, some, List, [], ◌∷◌, arith,
  get_elem?,
}
use backplaned_agents.Correlation.{result, PendingMap, register, close}
use backplaned_agents.Correlation.Order.{early_reply_met}
use backplaned_agents.Correlation.Buffer.{
  IsOrderly, Call, registers, resolves, rejects, reaps, call, calls, stays-IsOrderly,
}

program : Unit {0}
unfolding lookup register close call calls
program = tt

abbrev empty : PendingMap Text Text
empty = record {
  pending = [];
  buffered = [];
  futures = [];
  default_timeout = 30;
  buffer_resolves_s = 5;
  buffer_max_size = 2;
}

early_reply_met_example :
    let (before, fut) =
      register (close empty (codes "c") (inl (codes "v")) 1).0 (codes "c") none 3 in
    let (registered, fut') = register empty (codes "c") none 3 in
    (before ≡ (close registered (codes "c") (inl (codes "v")) 7).0)
    × (fut ≡ fut')
    × (get_elem? before.futures fut ≡ some (result (codes "v")))
unfolding program
early_reply_met_example =
    early_reply_met empty (codes "c") (inl (codes "v")) none 3 1 7 refl refl (omega arith)

abbrev churn : List (Call Text Text)
churn =
    resolves (codes "a") (codes "1") 1
    ∷ resolves (codes "b") (codes "2") 2
    ∷ rejects (codes "c") (codes "3") 3
    ∷ registers (codes "b") none 4
    ∷ registers (codes "d") none 4
    ∷ reaps (codes "late") 60
    ∷ []

empty-IsOrderly : IsOrderly empty
unfolding program
empty-IsOrderly = record { bounded = omega arith; room = omega arith; apart = λ cid p h. refl }

stays-IsOrderly_example : IsOrderly (calls empty churn)
stays-IsOrderly_example = stays-IsOrderly empty churn empty-IsOrderly

-- the oldest of three early replies is evicted, and the reaper clears the rest
churned : ((calls empty churn).buffered ≡ []) × ((calls empty churn).pending ≡ [])
unfolding program
churned = (refl, refl)
