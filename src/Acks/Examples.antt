-- ===== src/Acks/Examples.antt =====
-- The theorems on the pending acks at concrete calls.
use backplaned_agents.Prelude.{
  nat_eq, list_eq, option_eq, codes, ℕ, ◌≡◌, refl, none, some, [], ◌∷◌, get_elem?,
}
use backplaned_agents.Acks.{waiting, result, Acks}
use backplaned_agents.Acks.Settled.{calls, registers, resolves, reaps, settled_is_final}

-- one frame of two is answered
abbrev acks_of_two : Acks ℕ
acks_of_two = record {
  pending = (codes "b", record { future = 1; deadline = 40 }) ∷ [];
  futures = result 7 ∷ waiting ∷ [];
  default_timeout = 30;
}

settled_is_final_example :
    get_elem?
      (calls acks_of_two
        (registers (codes "a") none 5 ∷ reaps 60 ∷ resolves (codes "a") 9 ∷ [])).futures
      0
    ≡ some (result 7)
settled_is_final_example =
    settled_is_final (registers (codes "a") none 5 ∷ reaps 60 ∷ resolves (codes "a") 9 ∷ [])
      acks_of_two 0 (result 7) refl refl
