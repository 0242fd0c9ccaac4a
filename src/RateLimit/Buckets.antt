-- ===== src/RateLimit/Buckets.antt =====
-- What a request does to the buckets.
use native.Mathlib.Nat.{div-mul-le_self, mul-le-mul_right, le_trans}
use waychain_consensus.Prelude.{
  ℕ, ◌+◌, ◌*◌, ◌-◌, ◌/◌, ◌≤◌, ◌≡◌, ◌⊎◌, refl, Bool, true, false, Option, none, some, Outcome, ok,
  err, panic, Bytes, bytes_key, bytes_eq, bytes_eq_refl, lookup, lookup-insert, arith,
}
use waychain_consensus.Execution.Results.{Never}
use waychain_consensus.RateLimit.{TokenBucket, RateLimiter, refill, take_token, allow}

-- Whether a request is granted.
abbrev pub is_granted : Outcome Never Bool → Bool
is_granted (ok b) = b
is_granted (err e) = false
is_granted panic = false

abbrev pub one_if : Bool → ℕ
one_if true = 1
one_if false = 0

pub allow-limits :
    (ip : Bytes) (checked stored : ℕ) (rl : RateLimiter)
    → ((allow ip checked stored rl).1.rate ≡ rl.rate)
      × ((allow ip checked stored rl).1.window ≡ rl.window)
unfolding allow
allow-limits ip checked stored rl = (ground arith, ground arith)

pub allow-other :
    (ip who : Bytes) (checked stored : ℕ) (rl : RateLimiter)
    → bytes_eq ip who ≡ false
    → lookup who (allow ip checked stored rl).1.buckets ≡ lookup who rl.buckets
unfolding allow
allow-other ip who checked stored rl other = allow_some (lookup ip rl.buckets) refl
  where
    allow_some :
        (o : Option TokenBucket)
        → lookup ip rl.buckets ≡ o
        → lookup who (allow ip checked stored rl).1.buckets ≡ lookup who rl.buckets
    allow_some none e = ground (
      arith,
      other,
      e,
      lookup-insert ip who (record { tokens = rl.rate - 1; last_check = stored }) rl.buckets,
    )
    allow_some (some b) e = ground (
      arith,
      other,
      e,
      lookup-insert ip who (take_token (refill rl.rate (rl.window / rl.rate) checked stored b)).1
          rl.buckets,
    )

taken_tokens :
    (rate interval checked stored : ℕ) (b : TokenBucket)
    → let taken = take_token (refill rate interval checked stored b) in
      taken.1.tokens + one_if taken.0 ≤ b.tokens + (checked - b.last_check) / interval
unfolding take_token refill
taken_tokens rate interval checked stored b = ground arith

-- A bucket's tokens and the token that it hands out are paid for by the time that has passed.
pub take_token-refill :
    (rate interval checked stored : ℕ) (b : TokenBucket)
    → let taken = take_token (refill rate interval checked stored b) in
      (taken.1.last_check ≡ stored)
      × ((taken.1.tokens + one_if taken.0) * interval
          ≤ b.tokens * interval + (checked - b.last_check))
unfolding take_token refill
take_token-refill rate interval checked stored b = (
  ground arith,
  le_trans (mul-le-mul_right interval (taken_tokens rate interval checked stored b))
      (omega (arith, div-mul-le_self (checked - b.last_check) interval)),
)

-- The same for a request of the bucket's client; a request that panics grants nothing.
pub allow-some :
    (who : Bytes) (checked stored : ℕ) (rl : RateLimiter) (b : TokenBucket)
    → lookup who rl.buckets ≡ some b
    → ((allow who checked stored rl).1.buckets ≡ rl.buckets)
        × (is_granted (allow who checked stored rl).0 ≡ false)
      ⊎ (lookup who (allow who checked stored rl).1.buckets
          ≡ some (take_token (refill rl.rate (rl.window / rl.rate) checked stored b)).1)
        × (is_granted (allow who checked stored rl).0
            ≡ (take_token (refill rl.rate (rl.window / rl.rate) checked stored b)).0)
unfolding allow
allow-some who checked stored rl b e = ground (
  arith,
  e,
  bytes_eq_refl who,
  lookup-insert who who (take_token (refill rl.rate (rl.window / rl.rate) checked stored b)).1
      rl.buckets,
)

pub allow-none :
    (who : Bytes) (checked stored : ℕ) (rl : RateLimiter)
    → lookup who rl.buckets ≡ none
    → (lookup who (allow who checked stored rl).1.buckets
        ≡ some (record { tokens = rl.rate - 1; last_check = stored }))
      × (is_granted (allow who checked stored rl).0 ≡ true)
unfolding allow
allow-none who checked stored rl e = (
  ground (
    arith,
    e,
    bytes_eq_refl who,
    lookup-insert who who (record { tokens = rl.rate - 1; last_check = stored }) rl.buckets,
  ),
  ground (arith, e),
)
