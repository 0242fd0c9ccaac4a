-- ===== src/RateLimit/Starving.antt =====
-- A client that asks too often for its bucket to be filled again.
use native.Mathlib.Nat.{div-eq_of_lt, div-zero}
use waychain_consensus.Prelude.{
  ℕ, zero, suc, ◌-◌, ◌/◌, ◌<◌, ◌≡◌, refl, false, List, [], ◌∷◌, some, Bytes, bytes_key,
  bytes_eq_refl, lookup, lookup-insert, arith,
}
use waychain_consensus.RateLimit.{TokenBucket, RateLimiter, refill, take_token, allow}
use waychain_consensus.RateLimit.Buckets.{is_granted, allow-limits}
use waychain_consensus.RateLimit.Bound.{Request, granted}

-- All requests are those of one client, each within less than an interval of the one before it.
unfoldable pub IsQuick : Bytes → ℕ → ℕ → List Request → Type 0
IsQuick who interval last [] = Unit
IsQuick who interval last (q ∷ qs) =
    ((q.ip ≡ who) × (q.checked - last < interval)) × IsQuick who interval q.stored qs

take_nothing :
    (rate interval checked stored : ℕ) (b : TokenBucket)
    → b.tokens ≡ 0
    → checked - b.last_check < interval
    → take_token (refill rate interval checked stored b)
      ≡ (false, record { tokens = 0; last_check = stored })
unfolding take_token refill
take_nothing rate interval checked stored b empty soon = ground (arith, empty, div-eq_of_lt soon)

divisor_positive : (w r : ℕ) → 0 < w / r → 0 < r
divisor_positive w zero h = omega (arith, h, div-zero w)
divisor_positive w (suc r) h = omega arith

module _ (who : Bytes) where
  starved_step :
      (checked stored : ℕ) (rl : RateLimiter) (b : TokenBucket)
      → lookup who rl.buckets ≡ some b
      → b.tokens ≡ 0
      → checked - b.last_check < rl.window / rl.rate
      → (is_granted (allow who checked stored rl).0 ≡ false)
        × (lookup who (allow who checked stored rl).1.buckets
            ≡ some (record { tokens = 0; last_check = stored }))
  unfolding allow
  starved_step checked stored rl b e empty soon = (
    ground (
      arith,
      e,
      divisor_positive rl.window rl.rate (omega (arith, soon)),
      take_nothing rl.rate (rl.window / rl.rate) checked stored b empty soon,
    ),
    ground (
      arith,
      e,
      divisor_positive rl.window rl.rate (omega (arith, soon)),
      take_nothing rl.rate (rl.window / rl.rate) checked stored b empty soon,
      bytes_eq_refl who,
      lookup-insert who who (record { tokens = 0; last_check = stored }) rl.buckets,
    ),
  )

  same_interval :
      (last : ℕ) (qs : List Request) (rate rate' window window' : ℕ)
      → rate' ≡ rate
      → window' ≡ window
      → IsQuick who (window / rate) last qs
      → IsQuick who (window' / rate') last qs
  same_interval last qs rate rate' window window' e e' h = rw (e, e') h

  -- A client whose bucket is empty, and who asks again each time before a share of the window has
  -- passed since its last request, is granted nothing, however long that goes on.
  pub granted-starved :
      (qs : List Request) (rl : RateLimiter) (b : TokenBucket)
      → lookup who rl.buckets ≡ some b
      → b.tokens ≡ 0
      → IsQuick who (rl.window / rl.rate) b.last_check qs
      → granted who qs rl ≡ 0
  unfolding granted IsQuick
  granted-starved [] rl b e empty quick = refl
  granted-starved (q ∷ qs) rl b e empty quick =
      let now = (allow who q.checked q.stored rl).1 in
      let step = starved_step q.checked q.stored rl b e empty quick.0.1 in
      let same = allow-limits who q.checked q.stored rl in
      rw (quick.0.0, step.0, bytes_eq_refl who)
        (omega (
          arith,
          granted-starved qs now (record { tokens = 0; last_check = q.stored }) step.1 refl
              (same_interval q.stored qs rl.rate now.rate rl.window now.window same.0 same.1
                quick.1),
        ))
