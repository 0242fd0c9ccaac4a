-- ===== src/RateLimit/Tests.antt =====
-- Two tokens a window of ten, five requests.
use waychain_consensus.Prelude.{
  ◌+◌, ◌*◌, ◌/◌, ◌-◌, ◌≤◌, ◌≡◌, refl, List, [], ◌∷◌, codes, arith, lookup, insert, bytes_eq,
}
use waychain_consensus.RateLimit.{
  RateLimiter, new_rate_limiter, allow, refill, take_token, extract_ip,
}
use waychain_consensus.RateLimit.Starving.{IsQuick, granted-starved}
use waychain_consensus.RateLimit.Bound.{Request, InOrder, granted, granted-new_rate_limiter}

abbrev burst : List Request
burst =
    record { ip = codes "a"; checked = 1; stored = 1 }
    ∷ record { ip = codes "a"; checked = 2; stored = 2 }
    ∷ record { ip = codes "b"; checked = 2; stored = 3 }
    ∷ record { ip = codes "a"; checked = 4; stored = 5 }
    ∷ record { ip = codes "a"; checked = 11; stored = 11 }
    ∷ []

granted-burst : granted (codes "a") burst (new_rate_limiter 2 10) ≡ 3
unfolding granted allow refill take_token lookup insert bytes_eq
granted-burst = refl

granted-new_rate_limiter_example :
    granted (codes "a") burst (new_rate_limiter 2 10) * (10 / 2) ≤ 2 * (10 / 2) + (11 - 1)
unfolding InOrder
granted-new_rate_limiter_example =
    granted-new_rate_limiter (codes "a") 2 10 1 11 burst (omega arith) (omega arith)

-- The port is cut off.
extract_ip-remote : extract_ip [] (codes "10.0.0.1:80") ≡ codes "10.0.0.1"
unfolding extract_ip
extract_ip-remote = refl

-- A client without a token that asks every 4 of the 5 that a token takes.
abbrev impatient : List Request
impatient =
    record { ip = codes "a"; checked = 5; stored = 5 }
    ∷ record { ip = codes "a"; checked = 9; stored = 9 }
    ∷ record { ip = codes "a"; checked = 13; stored = 13 }
    ∷ []

abbrev drained : RateLimiter
drained = record {
  buckets = (codes "a", record { tokens = 0; last_check = 1 }) ∷ [];
  rate = 2;
  window = 10;
}

granted-starved_example : granted (codes "a") impatient drained ≡ 0
unfolding IsQuick lookup bytes_eq
granted-starved_example =
    granted-starved (codes "a") impatient drained (record { tokens = 0; last_check = 1 }) refl refl
      ((refl, omega arith), ((refl, omega arith), ((refl, omega arith), tt)))
