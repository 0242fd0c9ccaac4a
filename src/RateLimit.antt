-- ===== src/RateLimit.antt =====
-- rate_limit.go: the token buckets that limit the requests of each client.
-- Times are nanoseconds of the monotonic clock, which `Allow` reads twice. The rate of the model is
-- not below 0; with the rate 0, `Allow` divides by zero before it uses a bucket.
pub mod Buckets
pub mod Bound
pub mod Starving
mod Tests
use waychain_consensus.Prelude.{
  ℕ, ◌+◌, ◌*◌, ◌-◌, ◌/◌, Bool, true, false, List, [], ◌∷◌, Option, none, some, Outcome, ok, panic,
  ltb, leb, ◌==◌, if◌then◌else◌, Bytes, bytes_key, lookup, insert,
}
use waychain_consensus.Execution.Results.{Never}

pub record TokenBucket : Type 0 where
  pub tokens : ℕ
  pub last_check : ℕ

pub record RateLimiter : Type 0 where
  pub buckets : List (Bytes × TokenBucket)
  pub rate : ℕ
  pub window : ℕ

-- `NewRateLimiter`, without the loop that it starts
abbrev pub new_rate_limiter : ℕ → ℕ → RateLimiter
new_rate_limiter rate window = record { buckets = []; rate = rate; window = window }

-- The smaller of two numbers.
abbrev pub capped : ℕ → ℕ → ℕ
capped limit n = if ltb limit n then limit else n

-- The bucket after the refill, by the two readings of the clock.
unfoldable pub refill : ℕ → ℕ → ℕ → ℕ → TokenBucket → TokenBucket
refill rate interval checked stored b = record {
  tokens = capped rate (b.tokens + (checked - b.last_check) / interval);
  last_check = stored;
}

-- A token is taken where there is one.
unfoldable pub take_token : TokenBucket → Bool × TokenBucket
take_token b = if ltb 0 b.tokens then (true, record b { tokens = b.tokens - 1 }) else (false, b)

-- `Allow`
unfoldable pub allow : Bytes → ℕ → ℕ → RateLimiter → Outcome Never Bool × RateLimiter
unfolding refill take_token
allow ip checked stored rl = elim (lookup ip rl.buckets) [
  | none ↦ (
    ok true,
    record rl {
      buckets = insert ip (record { tokens = rl.rate - 1; last_check = stored }) rl.buckets;
    },
  )
  | some b ↦
      if rl.rate == 0
      then (panic, rl)
      else if rl.window / rl.rate == 0
      then (panic, rl)
      else (let taken = take_token (refill rl.rate (rl.window / rl.rate) checked stored b) in
          (ok taken.0, record rl { buckets = insert ip taken.1 rl.buckets }))
]

-- The entries that a tick of `cleanupLoop` keeps.
unfoldable pub fresh : ℕ → ℕ → List (Bytes × TokenBucket) → List (Bytes × TokenBucket)
fresh window now [] = []
fresh window now ((ip, b) ∷ bs) =
    let rest = fresh window now bs in
    if ltb (10 * window) (now - b.last_check) then rest else (ip, b) ∷ rest

unfoldable pub cleanup_tick : ℕ → RateLimiter → RateLimiter
unfolding fresh
cleanup_tick now rl = record rl { buckets = fresh rl.window now rl.buckets }

-- The part of a text before its last colon, or all of it where there is none.
before_last_colon : Bytes → Option Bytes
before_last_colon [] = none
before_last_colon (c ∷ cs) =
    let rest = before_last_colon cs in
    elim rest [ some front ↦ some (c ∷ front) | none ↦ if c == 58 then some [] else none ]

-- `extractIP`, of the header X-Forwarded-For and the remote address
unfoldable pub extract_ip : Bytes → Bytes → Bytes
unfolding before_last_colon
extract_ip (c ∷ cs) remote = c ∷ cs
extract_ip [] remote = elim (before_last_colon remote) [ some front ↦ front | none ↦ remote ]

-- `Middleware`: whether the request is passed on.
unfoldable pub middleware : Bytes → Bytes → ℕ → ℕ → RateLimiter → Outcome Never Bool × RateLimiter
unfolding allow extract_ip
middleware forwarded remote checked stored rl =
    allow (extract_ip forwarded remote) checked stored rl
