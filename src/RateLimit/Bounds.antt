-- ===== src/RateLimit/Bounds.antt =====
-- How much a bucket grants.
use backplaned_agents.Prelude.{
  nat_eq, list_eq, option_eq, Text, ==_self, lookup, ℕ, ◌+◌, ◌-◌, ◌*◌, ◌≤◌, ◌≡◌, refl, false, ◌||◌,
  some, List, [], ◌∷◌, arith, leb, if◌then◌else◌,
}
use mathlib.Core.Path.{subst}
use native.Mathlib.Nat.{add-mul}
use backplaned_agents.Lru.{Lru, get, get_item, put_last}
use backplaned_agents.Lru.Bounds.{set_known, lookup-put_last}
use backplaned_agents.RateLimit.{Bucket, Limit, refilled, consume, full_key, try_consume}

-- a request, so many ticks behind the one in front of it, and its cost
pub record Request : Type 0 where
  pub gap : ℕ
  pub cost : ℕ

-- the bucket behind a sequence of requests from the time `now` on, and the sum of the costs that
-- were granted
unfoldable pub granted : Limit → Bucket → ℕ → List Request → Bucket × ℕ
unfolding consume
granted limit b now [] = (b, 0)
granted limit b now (r ∷ rs) =
    let (b', grant) = consume limit b (now + r.gap) r.cost in
    let (b'', sum) = granted limit b' (now + r.gap) rs in
    (b'', (if grant.allowed then r.cost else 0) + sum)

abbrev pub ticks : List Request → ℕ
ticks [] = 0
ticks (r ∷ rs) = r.gap + ticks rs

gap_between : (ts gap : ℕ) → (ts + gap) - ts ≡ gap
gap_between ts gap = omega arith

refilled-le :
    (limit : Limit) (b : Bucket) (gap : ℕ)
    → refilled limit b (b.ts + gap) ≤ b.tokens + gap * limit.rate_per_s
unfolding refilled
refilled-le limit b gap = rw (gap_between b.ts gap, refilled) (ground arith)

-- one request: what is granted and what is left
consume_lem :
    (limit : Limit) (b : Bucket) (now cost : ℕ)
    → let (b', grant) = consume limit b now cost in
      ((if grant.allowed then cost else 0) + b'.tokens ≡ refilled limit b now) × (b'.ts ≡ now)
unfolding consume
consume_lem limit b now cost = (ground arith, ground arith)

-- A bucket grants no more than its tokens and what flows in during the time of the requests, however
-- the requests are spread over that time.
pub granted_bound :
    (limit : Limit) (rs : List Request) (b : Bucket) (now : ℕ)
    → b.ts ≡ now
    → (granted limit b now rs).1 + (granted limit b now rs).0.tokens
      ≤ b.tokens + ticks rs * limit.rate_per_s
unfolding granted
granted_bound limit [] b now e = ground arith
granted_bound limit (r ∷ rs) b now e =
    let b' = (consume limit b (now + r.gap) r.cost).0 in
    let one = consume_lem limit b (now + r.gap) r.cost in
    let flow =
      subst (λ n. refilled limit b (n + r.gap) ≤ b.tokens + r.gap * limit.rate_per_s) e
        (refilled-le limit b r.gap) in
    omega (
      arith,
      granted_bound limit rs b' (now + r.gap) one.1,
      one.0,
      flow,
      add-mul r.gap (ticks rs) limit.rate_per_s,
    )

-- what a known key spends in a sequence of calls, from the time `now` on
unfoldable pub spent : Lru Text Bucket → Text → Text → Limit → ℕ → List Request → ℕ
unfolding try_consume
spent mem prefix key limit now [] = 0
spent mem prefix key limit now (r ∷ rs) =
    let (mem', grant) = try_consume mem prefix key limit r.cost (now + r.gap) in
    (if grant.allowed then r.cost else 0) + spent mem' prefix key limit (now + r.gap) rs

module _ (mem : Lru Text Bucket) (prefix key : Text) (limit : Limit) (b : Bucket) where
  -- a call for a known key is a request to its bucket
  known_call :
      (cost now : ℕ)
      → (leb limit.rate_per_s 0 || leb limit.burst 0) ≡ false
      → lookup (full_key prefix key) mem.entries ≡ some b
      → ((try_consume mem prefix key limit cost now).1 ≡ (consume limit b now cost).1)
        × (lookup (full_key prefix key) (try_consume mem prefix key limit cost now).0.entries
            ≡ some (consume limit b now cost).0)
  unfolding try_consume get get_item
  known_call cost now capped known =
      let k = full_key prefix key in
      let read : Lru Text Bucket = record mem { entries = put_last k b mem.entries } in
      let still : lookup k read.entries ≡ some b =
        rw (lookup-put_last k k b mem.entries, ==_self k) refl in
      let b' = (consume limit b now cost).0 in
      rw (capped, try_consume, known, get, get_item)
        (
          refl,
          rw (set_known read k b' b still, lookup-put_last k k b' read.entries, ==_self k) refl,
        )

spent-granted :
    (rs : List Request) (mem : Lru Text Bucket) (prefix key : Text) (limit : Limit) (b : Bucket)
    (now : ℕ)
    → (leb limit.rate_per_s 0 || leb limit.burst 0) ≡ false
    → lookup (full_key prefix key) mem.entries ≡ some b
    → spent mem prefix key limit now rs ≡ (granted limit b now rs).1
unfolding spent granted
spent-granted [] mem prefix key limit b now capped known = refl
spent-granted (r ∷ rs) mem prefix key limit b now capped known =
    let (same, stored) = known_call mem prefix key limit b r.cost (now + r.gap) capped known in
    let b' = (consume limit b (now + r.gap) r.cost).0 in
    rw
      (
        same,
        spent-granted rs (try_consume mem prefix key limit r.cost (now + r.gap)).0 prefix key limit
            b' (now + r.gap) capped stored,
      )
      refl

-- In a run whose calls are all for one key, which the memory knows, at times that do not go back, they
-- are granted no more than the tokens of its bucket and what flows in meanwhile, if the limit has a
-- rate and a burst. A call for another key could evict the bucket, which starts full when it comes back.
pub spent_bound :
    (rs : List Request) (mem : Lru Text Bucket) (prefix key : Text) (limit : Limit) (b : Bucket)
    → (leb limit.rate_per_s 0 || leb limit.burst 0) ≡ false
    → lookup (full_key prefix key) mem.entries ≡ some b
    → spent mem prefix key limit b.ts rs ≤ b.tokens + ticks rs * limit.rate_per_s
spent_bound rs mem prefix key limit b capped known = omega (
  arith,
  spent-granted rs mem prefix key limit b b.ts capped known,
  granted_bound limit rs b b.ts refl,
)
