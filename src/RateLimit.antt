-- ===== src/RateLimit.antt =====
-- bp_router/security/rate_limit.py: `TokenBucket.try_consume` on the memory of one process, which is
-- what it uses without Redis. The floats are whole numbers: tokens are counted in parts of a token,
-- `rate_per_s` in parts per tick of the clock, and a time to wait is told by the parts that are
-- missing, to be divided by the rate.
mod Bounds
mod Examples
use backplaned_agents.Prelude.{
  Eq, nat_eq, list_eq, option_eq, Text, codes, ℕ, zero, suc, ◌+◌, ◌-◌, ◌*◌, Bool, true, false, ◌||◌,
  ◌++◌, arith, ltb, leb, if◌then◌else◌,
}
use backplaned_agents.Lru.{Lru, get, set_item}

pub record Bucket : Type 0 where
  pub tokens : ℕ
  pub ts : ℕ

pub record Grant : Type 0 where
  pub allowed : Bool
  pub missing : ℕ
  pub tokens_remaining : ℕ

pub record Limit : Type 0 where
  pub rate_per_s : ℕ
  pub burst : ℕ

abbrev pub min_of : ℕ → ℕ → ℕ
min_of a b = if leb a b then a else b

-- the tokens of a bucket at the time `now`
unfoldable pub refilled : Limit → Bucket → ℕ → ℕ
refilled limit b now =
    if ltb b.ts now
    then min_of limit.burst (b.tokens + (now - b.ts) * limit.rate_per_s)
    else b.tokens

-- the bucket behind the request, and the answer
unfoldable pub consume : Limit → Bucket → ℕ → ℕ → Bucket × Grant
unfolding refilled
consume limit b now cost =
    let tokens = refilled limit b now in
    if leb cost tokens
    then (
      record { tokens = tokens - cost; ts = now },
      record { allowed = true; missing = 0; tokens_remaining = tokens - cost },
    )
    else (
      record { tokens = tokens; ts = now },
      record { allowed = false; missing = cost - tokens; tokens_remaining = tokens },
    )

abbrev pub full_key : Text → Text → Text
full_key prefix key = prefix ++ codes ":" ++ key

-- `try_consume` without Redis
unfoldable pub try_consume : Lru Text Bucket → Text → Text → Limit → ℕ → ℕ → Lru Text Bucket × Grant
unfolding get set_item consume
try_consume mem prefix key limit cost now =
    if leb limit.rate_per_s 0 || leb limit.burst 0
    then (mem, record { allowed = true; missing = 0; tokens_remaining = limit.burst })
    else (let (b, mem') =
          get mem (full_key prefix key) (record { tokens = limit.burst; ts = now }) in
        let (b', grant) = consume limit b now cost in
        (set_item mem' (full_key prefix key) b', grant))
