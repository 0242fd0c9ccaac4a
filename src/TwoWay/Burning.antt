-- ===== src/TwoWay/Burning.antt =====
-- What a repayment does to the debts.
use waychain_consensus.Prelude.{
  ℕ, ◌-◌, ◌≡◌, false, true, ok, err, codes, Bool-cases, inl, inr, [], ◌∷◌, arith, leb,
  if◌then◌else◌, is_ok, is_panic, Bytes, length, slice, bytes_eq,
}
use waychain_consensus.Hashing.{Sha256}
use waychain_consensus.State.{StateDb, touch, add_log}
use waychain_consensus.Precompile.{storage_key, read_slot, big_bytes}
use waychain_consensus.StabilityPool.{pool_addr, vault_addr, debt_key, minted_debt_slot}
use waychain_consensus.TwoWay.{two_way_burn, burn_too_short, total_debt}
use waychain_consensus.TwoWay.Slots.{
  at, at-touch, at-add_log, lower_at, at-lower_at, at-lower_at_pool,
}

module _ ⦃h : Sha256⦄ where
  -- The three writes of a repayment.
  repaid : Bytes → Bytes → ℕ → StateDb → StateDb
  repaid vault_id caller a s = lower_at vault_addr (storage_key total_debt) a (
      touch vault_addr (
        lower_at pool_addr (storage_key (minted_debt_slot caller)) a
          (touch pool_addr (lower_at vault_addr (debt_key vault_id) a (touch vault_addr s)))))

  at-repaid :
      (j vault_id caller : Bytes) (a : ℕ) (s : StateDb)
      → bytes_eq (debt_key vault_id) (storage_key total_debt) ≡ false
      → at j (repaid vault_id caller a s) ≡ (
          if bytes_eq (storage_key total_debt) j
          then at (storage_key total_debt) s - a
          else if bytes_eq (debt_key vault_id) j
          then at (debt_key vault_id) s - a
          else at j s)
  unfolding repaid
  at-repaid j vault_id caller a s differ = simp (at-lower_at, at-lower_at_pool, at-touch, differ)

  two_way_burn-state :
      (input caller : Bytes) (block : ℕ) (s : StateDb)
      → is_panic (two_way_burn input caller block s).0 ≡ false
      → leb 68 (length input) ≡ true
      → (two_way_burn input caller block s) ≡ (
        ok (slice input 4 36),
        add_log vault_addr
            (storage_key (codes "Burned")
              ∷ storage_key (slice input 4 36)
              ∷ storage_key caller
              ∷ [])
            (big_bytes (read_slot input 36))
            block
            (repaid (slice input 4 36) caller (read_slot input 36) s),
      )
  unfolding two_way_burn repaid lower_at
  two_way_burn-state input caller block s calm long = ground arith

  two_way_burn_short :
      (input caller : Bytes) (block : ℕ) (s : StateDb)
      → leb 68 (length input) ≡ false
      → two_way_burn input caller block s ≡ (err burn_too_short, s)
  unfolding two_way_burn
  two_way_burn_short input caller block s short = ground arith

  -- A burn that does not panic, for a vault whose debt slot is not that of the total: it is
  -- accepted exactly when the input is long enough, whatever the vault owes. Acceptance takes the
  -- amount off the debt of the vault and off the total, which stop at zero, and no other slot of
  -- the account changes; a refusal changes none.
  pub two_way_burn_exact :
      (input caller : Bytes) (block : ℕ) (s : StateDb)
      → is_panic (two_way_burn input caller block s).0 ≡ false
      → bytes_eq (debt_key (slice input 4 36)) (storage_key total_debt) ≡ false
      → (is_ok (two_way_burn input caller block s).0 ≡ leb 68 (length input))
        × ((j : Bytes)
            → at j (two_way_burn input caller block s).1 ≡ (
                if leb 68 (length input)
                then (if bytes_eq (storage_key total_debt) j
                    then at (storage_key total_debt) s - read_slot input 36
                    else if bytes_eq (debt_key (slice input 4 36)) j
                    then at (debt_key (slice input 4 36)) s - read_slot input 36
                    else at j s)
                else at j s))
  two_way_burn_exact input caller block s calm differ = elim (Bool-cases (leb 68 (length input))) [
    | inl long ↦ (
      ground (arith, two_way_burn-state input caller block s calm long, long),
      λ j. ground (
        arith,
        long,
        two_way_burn-state input caller block s calm long,
        at-repaid j (slice input 4 36) caller (read_slot input 36) s differ,
        at-add_log j vault_addr
            (storage_key (codes "Burned")
              ∷ storage_key (slice input 4 36)
              ∷ storage_key caller
              ∷ [])
            (big_bytes (read_slot input 36)) block
            (repaid (slice input 4 36) caller (read_slot input 36) s),
      ),
    )
    | inr short ↦ (
      ground (arith, short, two_way_burn_short input caller block s short),
      λ j. ground (arith, short, two_way_burn_short input caller block s short),
    )
  ]
