-- ===== src/RateLimit/Bound.antt =====
-- How many requests of one client are granted.
use waychain_consensus.Prelude.{
  ℕ, ◌+◌, ◌*◌, ◌-◌, ◌/◌, ◌≤◌, ◌<◌, ◌≡◌, inl, inr, refl, sym, ap, ◌∙◌, ◌&&◌, List, [], ◌∷◌, Option,
  none, some, Bytes, bytes_key, bytes_eq, bytes_eq→eq, Bool-cases, lookup, arith,
}
use waychain_consensus.RateLimit.{TokenBucket, RateLimiter, new_rate_limiter, allow}
use waychain_consensus.RateLimit.Buckets.{
  is_granted, one_if, allow-limits, allow-other, allow-some, allow-none, take_token-refill,
}

-- A request of a client, with the two readings of the clock.
pub record Request : Type 0 where
  pub ip : Bytes
  pub checked : ℕ
  pub stored : ℕ

-- How many of the requests are those of one client and are granted.
unfoldable pub granted : Bytes → List Request → RateLimiter → ℕ
granted who [] rl = 0
granted who (q ∷ qs) rl =
    one_if (bytes_eq q.ip who && is_granted (allow q.ip q.checked q.stored rl).0)
    + granted who qs (allow q.ip q.checked q.stored rl).1

-- The clock runs on from one reading to the next, between two times.
unfoldable pub InOrder : ℕ → List Request → ℕ → Type 0
InOrder start [] end = start ≤ end
InOrder start (q ∷ qs) end = (start ≤ q.checked) × (q.checked ≤ q.stored) × InOrder q.stored qs end

-- The tokens of a client, counted in the time that they stand for, and the time up to the end.
credit_of : ℕ → ℕ → ℕ → ℕ → Option TokenBucket → ℕ
credit_of rate interval start end none = rate * interval + (end - start)
credit_of rate interval start end (some b) = b.tokens * interval + (end - b.last_check)

-- A bucket was last looked at before the time.
IsPast : ℕ → Option TokenBucket → Type 0
IsPast start none = Unit
IsPast start (some b) = b.last_check ≤ start

-- A bound in terms of limits that are the same.
same_limits :
    (n start end : ℕ) (o : Option TokenBucket) (rate rate' window window' : ℕ)
    → rate' ≡ rate
    → window' ≡ window
    → n * (window' / rate') ≤ credit_of rate' (window' / rate') start end o
    → n * (window / rate) ≤ credit_of rate (window / rate) start end o
same_limits n start end o rate rate' window window' e e' h = rw (sym e, sym e') h

-- A later start leaves no more credit.
credit_of-later :
    (rate interval start later end : ℕ) (o : Option TokenBucket)
    → start ≤ later
    → (credit_of rate interval later end o ≤ credit_of rate interval start end o)
      × (IsPast start o → IsPast later o)
unfolding credit_of IsPast
credit_of-later rate interval start later end none h = (omega arith, λ _. tt)
credit_of-later rate interval start later end (some b) h = (omega arith, λ past. omega arith)

InOrder-le : (qs : List Request) (start end : ℕ) → InOrder start qs end → start ≤ end
unfolding InOrder
InOrder-le [] start end h = h
InOrder-le (q ∷ qs) start end h = omega (arith, InOrder-le qs q.stored end h.2)

module _ (who : Bytes) (checked stored start end : ℕ) (rl : RateLimiter) (early : start ≤ checked)
    (read : checked ≤ stored) (late : stored ≤ end) where
  -- What a request of the client costs.
  Paid : Option TokenBucket → Type 0
  Paid o =
      (credit_of rl.rate (rl.window / rl.rate) stored end
            (lookup who (allow who checked stored rl).1.buckets)
          + one_if (is_granted (allow who checked stored rl).0) * (rl.window / rl.rate)
        ≤ credit_of rl.rate (rl.window / rl.rate) start end o)
      × IsPast stored (lookup who (allow who checked stored rl).1.buckets)

  some_bucket :
      (b : TokenBucket) → lookup who rl.buckets ≡ some b → b.last_check ≤ start → Paid (some b)
  unfolding Paid credit_of IsPast
  some_bucket b e past = elim (allow-some who checked stored rl b e) [
    | inl refused ↦ rw (ap (λ m. lookup who m) refused.0 ∙ e, refused.1) (omega arith, omega arith)
    | inr taken ↦
        rw (taken.0, taken.1)
          (
            omega (arith, take_token-refill rl.rate (rl.window / rl.rate) checked stored b),
            omega (arith, take_token-refill rl.rate (rl.window / rl.rate) checked stored b),
          )
  ]

  no_bucket : lookup who rl.buckets ≡ none → 0 < rl.rate → Paid none
  unfolding Paid credit_of IsPast
  no_bucket e positive =
      let first = allow-none who checked stored rl e in
      rw (first.0, first.1)
        (
          omega (
            arith,
            ap (λ n. n * (rl.window / rl.rate)) {x = rl.rate - 1 + 1} {y = rl.rate}
                (omega (arith, positive)),
          ),
          omega arith,
        )

  any_bucket :
      (o : Option TokenBucket) → lookup who rl.buckets ≡ o → IsPast start o → 0 < rl.rate → Paid o
  unfolding IsPast
  any_bucket none e past positive = no_bucket e positive
  any_bucket (some b) e past positive = some_bucket b e past

module _ (who : Bytes) where
  request_step :
      (q : Request) (start end : ℕ) (rl : RateLimiter)
      → 0 < rl.rate
      → IsPast start (lookup who rl.buckets)
      → start ≤ q.checked
      → q.checked ≤ q.stored
      → q.stored ≤ end
      → let now = allow q.ip q.checked q.stored rl in
        (credit_of rl.rate (rl.window / rl.rate) q.stored end (lookup who now.1.buckets)
            + one_if (bytes_eq q.ip who && is_granted now.0) * (rl.window / rl.rate)
          ≤ credit_of rl.rate (rl.window / rl.rate) start end (lookup who rl.buckets))
        × IsPast q.stored (lookup who now.1.buckets)
  unfolding Paid
  request_step q start end rl positive past early read late =
      elim (Bool-cases (bytes_eq q.ip who)) [
        | inl same ↦
            rw (same, bytes_eq→eq q.ip who same)
              (any_bucket who q.checked q.stored start end rl early read late
                (lookup who rl.buckets) refl past positive)
        | inr other ↦
            (let later =
                credit_of-later rl.rate (rl.window / rl.rate) start q.stored end
                  (lookup who rl.buckets) (omega (arith, early, read)) in
              rw (other, allow-other q.ip who q.checked q.stored rl other)
                (omega (arith, later.0), later.1 past))
      ]

  -- The bound, from any buckets.
  granted_within :
      (qs : List Request) (start end : ℕ) (rl : RateLimiter)
      → 0 < rl.rate
      → IsPast start (lookup who rl.buckets)
      → InOrder start qs end
      → granted who qs rl * (rl.window / rl.rate)
        ≤ credit_of rl.rate (rl.window / rl.rate) start end (lookup who rl.buckets)
  unfolding granted InOrder
  granted_within [] start end rl positive past order = omega arith
  granted_within (q ∷ qs) start end rl positive past order =
      let now = (allow q.ip q.checked q.stored rl).1 in
      let same = allow-limits q.ip q.checked q.stored rl in
      let paid =
        request_step q start end rl positive past order.0 order.1
          (InOrder-le qs q.stored end order.2) in
      let rest =
        granted_within qs q.stored end now (omega (arith, same.0, positive)) paid.1 order.2 in
      omega (
        arith,
        paid.0,
        same_limits (granted who qs now) q.stored end (lookup who now.buckets) rl.rate now.rate
            rl.window now.window same.0 same.1 rest,
      )

  -- Of any requests in order of time to a new limiter with a positive rate, whatever other clients
  -- ask in between, each client is granted at most the rate and one more for every full share of
  -- the window that passes: the number granted, times window / rate, is at most rate times window /
  -- rate plus the time from start to end.
  pub granted-new_rate_limiter :
      (rate window start end : ℕ) (qs : List Request)
      → 0 < rate
      → InOrder start qs end
      → granted who qs (new_rate_limiter rate window) * (window / rate)
        ≤ rate * (window / rate) + (end - start)
  unfolding credit_of IsPast lookup
  granted-new_rate_limiter rate window start end qs positive order =
      granted_within qs start end (new_rate_limiter rate window) positive tt order
