-- ===== src/Precompile/Laws.antt =====
-- Slots of one precompile's account: which keys differ, and what the input readers can return.
use native.Mathlib.Nat.{mod-eq-sub-div-mul, div-div-eq-div-mul, div-add-mod'}
use waychain_consensus.Prelude.{
  sym, ap, ◌∙◌, ℕ, zero, suc, ◌+◌, ◌*◌, ◌^◌, ◌-◌, ◌/◌, ◌%◌, ◌<◌, ◌≤◌, ◌≡◌, refl, [], ◌∷◌, arith,
  if◌then◌else◌, Bytes, bytes_eq, bytes_eq_refl, length, take, drop, be_value, be_from,
}
use waychain_consensus.Hashing.{Sha256, bytes_eq-sum256}
use waychain_consensus.State.{StateDb}
use waychain_consensus.State.Storage.{sload, sstore, sload-sstore}
use waychain_consensus.Precompile.{storage_key, be_bytes, word, read_slot}

-- A read after a write in one account, under hashed keys.
pub sload-sstore_hashed :
    ⦃h : Sha256⦄ (a k j : Bytes) (v : ℕ) (s : StateDb)
    → sload a (storage_key k) (sstore a (storage_key j) v s)
      ≡ (if bytes_eq j k then v else sload a (storage_key k) s)
sload-sstore_hashed ⦃h⦄ a k j v s =
    ground
      (arith, sload-sstore a (h.sum256 k) a (h.sum256 j) v s, bytes_eq_refl a, bytes_eq-sum256 j k)

pub length-be_bytes : (n v : ℕ) → length (be_bytes n v) ≡ n
unfolding be_bytes
length-be_bytes zero v = refl
length-be_bytes (suc n) v = omega (arith, length-be_bytes n v)

split_at : (k d p r : ℕ) → (k * 256 + d) * p + r - k * (p * 256) ≡ d * p + r
split_at k d p r = omega arith

shift_digit : (acc d p r : ℕ) → (acc * 256 + d) * p + r ≡ acc * (p * 256) + (d * p + r)
shift_digit acc d p r = omega arith

-- A digit and the digits below it.
digit_split : (v p : ℕ) → v % (p * 256) ≡ v / p % 256 * p + v % p
digit_split v p =
    mod-eq-sub-div-mul v (p * 256)
    ∙ ap (λ x. v - x * (p * 256)) (sym (div-div-eq-div-mul v p 256))
    ∙ ap (λ x. x - v / p / 256 * (p * 256))
        (sym (div-add-mod' v p) ∙ ap (λ q. q * p + v % p) (sym (div-add-mod' (v / p) 256)))
    ∙ split_at (v / p / 256) (v / p % 256) p (v % p)

pow_step : (n : ℕ) → 256 ^ suc n ≡ 256 ^ n * 256
pow_step n = omega arith

pub be_from-be_bytes : (n v acc : ℕ) → be_from acc (be_bytes n v) ≡ acc * 256 ^ n + v % 256 ^ n
unfolding be_bytes be_from
be_from-be_bytes zero v acc = omega arith
be_from-be_bytes (suc n) v acc =
    be_from-be_bytes n v (acc * 256 + v / 256 ^ n % 256)
    ∙ shift_digit acc (v / 256 ^ n % 256) (256 ^ n) (v % 256 ^ n)
    ∙ ap (λ x. acc * (256 ^ n * 256) + x) (sym (digit_split v (256 ^ n)))
    ∙ ap (λ x. acc * x + v % x) (sym (pow_step n))

pub take-length : (n : ℕ) (xs : Bytes) → length xs ≡ n → take n xs ≡ xs
take-length zero [] h = refl
take-length zero (x ∷ xs) h = ground arith
take-length (suc n) [] h = refl
take-length (suc n) (x ∷ xs) h = rw (take-length n xs (omega arith)) refl

pub length-take_enough : (n : ℕ) (xs : Bytes) → n ≤ length xs → length (take n xs) ≡ n
length-take_enough zero xs h = refl
length-take_enough (suc n) [] h = omega arith
length-take_enough (suc n) (x ∷ xs) h = omega (arith, length-take_enough n xs)

pub length-drop_enough : (n : ℕ) (xs : Bytes) → length (drop n xs) ≡ length xs - n
length-drop_enough zero xs = omega arith
length-drop_enough (suc n) [] = omega arith
length-drop_enough (suc n) (x ∷ xs) = omega (arith, length-drop_enough n xs)

-- A word is read back.
pub read_slot-word : (v : ℕ) → v < 2 ^ 256 → read_slot (word v) 0 ≡ v
unfolding be_value word read_slot
read_slot-word v h = ground (
  arith,
  length-be_bytes 32 v,
  take-length 32 (be_bytes 32 v) (length-be_bytes 32 v),
  be_from-be_bytes 32 v 0,
)
