-- ===== src/Serialize/Numbers.antt =====
-- `big.Int`'s `Bytes` for a number of any size.
use waychain_consensus.Prelude.{
  ℕ, zero, suc, ◌+◌, ◌*◌, ◌/◌, ◌%◌, ◌<◌, ◌≡◌, ap, [], ◌∷◌, arith, ◌==◌, if◌then◌else◌, Bytes,
  be_value, be_from,
}

-- The bytes of `n`, most significant first and none for 0; `n + 1` rounds are enough.
bytes_from : ℕ → ℕ → Bytes → Bytes
bytes_from zero n acc = acc
bytes_from (suc fuel) n acc =
    let rest = bytes_from fuel (n / 256) ((n % 256) ∷ acc) in if n == 0 then acc else rest

-- `n.Bytes()`
unfoldable pub number_bytes : ℕ → Bytes
unfolding bytes_from
number_bytes n = bytes_from (suc n) n []

be_from-bytes_from :
    (fuel n : ℕ) (acc : Bytes) → n < fuel → be_from 0 (bytes_from fuel n acc) ≡ be_from n acc
unfolding bytes_from be_from
be_from-bytes_from zero n acc h = elim h [ ]
be_from-bytes_from (suc fuel) n acc h = ground (
  arith,
  be_from-bytes_from fuel (n / 256) ((n % 256) ∷ acc),
  ap (λ (m : ℕ). be_from m acc) {x = n / 256 * 256 + n % 256} {y = n} (omega arith),
)

-- `SetBytes` of these bytes gives the number back.
pub be_value-number_bytes : (n : ℕ) → be_value (number_bytes n) ≡ n
unfolding be_value number_bytes be_from
be_value-number_bytes n = be_from-bytes_from (suc n) n [] (omega arith)
