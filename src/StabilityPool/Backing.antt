-- ===== src/StabilityPool/Backing.antt =====
-- The ledger of deposits: the recorded total covers the deposits of all users, whatever calls the
-- pool has received.
use waychain_consensus.Prelude.{
  ℕ, ◌+◌, ◌≤◌, ◌≡◌, refl, Bool, true, false, List, [], ◌∷◌, ◌&&◌, ◌||◌, if◌then◌else◌, Bytes, arith,
  bytes_eq, bytes_eq_iff, not,
}
use waychain_consensus.Hashing.{Sha256}
use waychain_consensus.State.{StateDb}
use waychain_consensus.Precompile.{abs_diff}
use waychain_consensus.StabilityPool.{deposit_slot, total_deposits}
use waychain_consensus.StabilityPool.Moves.{slot, after_deposit, after_withdraw}
use waychain_consensus.StabilityPool.Deposits.{slot-after_deposit, slot-after_withdraw}

-- A list of users that names nobody twice.
unfoldable pub has_user : Bytes → List Bytes → Bool
has_user u [] = false
has_user u (v ∷ vs) = bytes_eq u v || has_user u vs

unfoldable pub all_distinct : List Bytes → Bool
unfolding has_user
all_distinct [] = true
all_distinct (v ∷ vs) = not (has_user v vs) && all_distinct vs

module _ ⦃h : Sha256⦄ where
  -- The recorded deposits of some users.
  unfoldable pub deposits_of : List Bytes → StateDb → ℕ
  unfolding slot
  deposits_of [] s = 0
  deposits_of (u ∷ us) s = slot (deposit_slot u) s + deposits_of us s

  unfoldable pub IsBacked : StateDb → Type 0
  unfolding all_distinct deposits_of slot
  IsBacked s = (us : List Bytes) → all_distinct us ≡ true → deposits_of us s ≤ slot total_deposits s

  -- A state with the same ledger.
  unfoldable pub IsSameLedger : StateDb → StateDb → Type 0
  unfolding slot
  IsSameLedger s t = (u : Bytes) → slot (deposit_slot u) t ≡ slot (deposit_slot u) s

  deposits_of-IsSameLedger :
      (us : List Bytes) (s t : StateDb) → IsSameLedger s t → deposits_of us t ≡ deposits_of us s
  unfolding deposits_of IsSameLedger
  deposits_of-IsSameLedger [] s t e = refl
  deposits_of-IsSameLedger (u ∷ us) s t e = omega (arith, e u, deposits_of-IsSameLedger us s t e)

  pub IsBacked-IsSameLedger :
      (s t : StateDb)
      → IsSameLedger s t
      → slot total_deposits t ≡ slot total_deposits s
      → IsBacked s
      → IsBacked t
  unfolding IsBacked
  IsBacked-IsSameLedger s t e f b us d = omega (arith, b us d, f, deposits_of-IsSameLedger us s t e)

  -- The two kinds of ledger slots after the two calls.
  module _ (caller : Bytes) (a block : ℕ) (s : StateDb) where
    deposit-after_deposit :
        (u : Bytes)
        → slot (deposit_slot u) (after_deposit caller a block s)
          ≡ (if bytes_eq caller u then slot (deposit_slot u) s + a else slot (deposit_slot u) s)
    unfolding bytes_eq
    deposit-after_deposit u = slot-after_deposit (deposit_slot u) caller a block s

    total-after_deposit :
        slot total_deposits (after_deposit caller a block s) ≡ slot total_deposits s + a
    unfolding bytes_eq
    total-after_deposit = slot-after_deposit total_deposits caller a block s

    deposit-after_withdraw :
        (u : Bytes)
        → slot (deposit_slot u) (after_withdraw caller a block s) ≡ (
            if bytes_eq caller u
            then abs_diff (slot (deposit_slot u) s) a
            else slot (deposit_slot u) s)
    unfolding bytes_eq
    deposit-after_withdraw u = slot-after_withdraw (deposit_slot u) caller a block s

    total-after_withdraw :
        slot total_deposits (after_withdraw caller a block s) ≡ abs_diff (slot total_deposits s) a
    unfolding bytes_eq
    total-after_withdraw = slot-after_withdraw total_deposits caller a block s

  deposits_of-after_deposit :
      (us : List Bytes) (caller : Bytes) (a block : ℕ) (s : StateDb)
      → all_distinct us ≡ true
      → deposits_of us (after_deposit caller a block s)
        ≡ deposits_of us s + (if has_user caller us then a else 0)
  unfolding deposits_of all_distinct has_user
  deposits_of-after_deposit [] caller a block s d = refl
  deposits_of-after_deposit (u ∷ us) caller a block s d = ground (
    arith,
    deposits_of-after_deposit us caller a block s,
    deposit-after_deposit caller a block s u,
    bytes_eq_iff caller u,
  )

  deposits_of-after_withdraw :
      (us : List Bytes) (caller : Bytes) (a block : ℕ) (s : StateDb)
      → all_distinct us ≡ true
      → a ≤ slot (deposit_slot caller) s
      → deposits_of us (after_withdraw caller a block s) + (if has_user caller us then a else 0)
        ≡ deposits_of us s
  unfolding deposits_of all_distinct has_user
  deposits_of-after_withdraw [] caller a block s d e = refl
  deposits_of-after_withdraw (u ∷ us) caller a block s d e = ground (
    arith,
    deposits_of-after_withdraw us caller a block s,
    deposit-after_withdraw caller a block s u,
    bytes_eq_iff caller u,
  )

  deposits_of-has_user :
      (us : List Bytes) (u : Bytes) (s : StateDb)
      → has_user u us ≡ true
      → slot (deposit_slot u) s ≤ deposits_of us s
  unfolding deposits_of has_user
  deposits_of-has_user [] u s e = ground arith
  deposits_of-has_user (v ∷ us) u s e =
      ground (arith, deposits_of-has_user us u s, bytes_eq_iff u v)

  pub after_deposit-IsBacked :
      (caller : Bytes) (a block : ℕ) (s : StateDb)
      → IsBacked s
      → IsBacked (after_deposit caller a block s)
  unfolding IsBacked
  after_deposit-IsBacked caller a block s b us d = ground (
    arith,
    b us d,
    deposits_of-after_deposit us caller a block s d,
    total-after_deposit caller a block s,
  )

  pub after_withdraw-IsBacked :
      (caller : Bytes) (a block : ℕ) (s : StateDb)
      → a ≤ slot (deposit_slot caller) s
      → IsBacked s
      → IsBacked (after_withdraw caller a block s)
  unfolding IsBacked all_distinct deposits_of
  after_withdraw-IsBacked caller a block s e b us d = ground (
    arith,
    b us d,
    b (caller ∷ us),
    deposits_of-after_withdraw us caller a block s d e,
    deposits_of-has_user us caller s,
    total-after_withdraw caller a block s,
  )
