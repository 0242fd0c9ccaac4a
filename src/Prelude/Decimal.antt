-- ===== src/Prelude/Decimal.antt =====
-- `fmt.Sprintf("%d", n)` for an unsigned number.
use waychain_consensus.Prelude.{
  ℕ, zero, suc, ◌+◌, ◌/◌, ◌%◌, ◌<◌, ◌≡◌, [], ◌∷◌, arith, Bytes, ltb, if◌then◌else◌,
}

-- The digits of `n`, most significant first; `n + 1` rounds are enough.
decimal_digits : ℕ → ℕ → Bytes → Bytes
decimal_digits zero n acc = acc
decimal_digits (suc fuel) n acc =
    let rest = decimal_digits fuel (n / 10) ((48 + n % 10) ∷ acc) in
    if ltb n 10 then (48 + n) ∷ acc else rest

unfoldable pub decimal : ℕ → Bytes
unfolding decimal_digits
decimal n = decimal_digits (suc n) n []

-- More fuel changes nothing.
decimal_digits-enough :
    (fuel more n : ℕ) (acc : Bytes)
    → n < fuel
    → n < more
    → decimal_digits fuel n acc ≡ decimal_digits more n acc
unfolding decimal_digits
decimal_digits-enough zero more n acc h k = elim h [ ]
decimal_digits-enough (suc fuel) zero n acc h k = elim k [ ]
decimal_digits-enough (suc fuel) (suc more) n acc h k =
    ground (arith, decimal_digits-enough fuel more (n / 10) ((48 + n % 10) ∷ acc))
