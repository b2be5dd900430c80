-- ===== src/Sockets/Examples.antt =====
-- A reconnect with a late disconnect of the old socket.
use backplaned_agents.Prelude.{
  nat_eq, list_eq, option_eq, codes, ℕ, String, ◌≡◌, refl, inr, true, some, [], ◌∷◌,
}
use backplaned_agents.Sockets.{Entry, Registry, attach, get}
use backplaned_agents.Sockets.Supersede.{attaches, detaches, calls, newest_stays}

abbrev entry : ℕ → String → Entry
entry n agent = record { identity = n; agent_id = codes agent; session_token = codes "t" }

abbrev connected : Registry
connected = record { live = (codes "a", entry 1 "a") ∷ []; resume = [] }

newest_stays_example :
    get
      (calls
        (attach connected (entry 2 "a")).0
        (attaches (entry 3 "b") ∷ detaches (codes "a") true (some (entry 1 "a")) ∷ []))
      (codes "a")
    ≡ some (entry 2 "a")
newest_stays_example =
    newest_stays connected (entry 2 "a")
      (attaches (entry 3 "b") ∷ detaches (codes "a") true (some (entry 1 "a")) ∷ [])
      (refl, (inr refl, tt))
