-- ===== src/TwoWay/Charging.antt =====
-- The writes of a mint: the fee that is credited, and the debts that are raised.
use waychain_consensus.Prelude.{
  ℕ, ◌+◌, ◌-◌, ◌/◌, ◌≡◌, refl, false, ok, err, codes, [], ◌∷◌, arith, leb, if◌then◌else◌, is_panic,
  Bytes, bytes_eq, bytes_eq_refl,
}
use waychain_consensus.Hashing.{Sha256}
use waychain_consensus.State.{StateDb, touch, add_log}
use waychain_consensus.State.Storage.{sstore, sload-sstore}
use waychain_consensus.Precompile.{storage_key, big_bytes}
use waychain_consensus.StabilityPool.{
  pool_addr, vault_addr, debt_key, lp_fee_slot, minted_debt_slot, way_rewards, sway_rewards,
  total_rewards,
}
use waychain_consensus.StabilityPool.Moves.{slot, put, raise, slot-raise}
use waychain_consensus.StabilityPool.Deposits.{slot-touch, slot-add_log}
use waychain_consensus.TwoWay.{
  Collaterals, charge_and_mint, reward_mint, record_mint, total_debt, is_above_min_c_ratio,
  mint_below_ratio,
}
use waychain_consensus.TwoWay.Slots.{at, at-touch, at-sstore, at-add_log, at-pool}

module _ ⦃h : Sha256⦄ where
  -- The four writes that credit a fee.
  pub rewarded : Bytes → ℕ → StateDb → StateDb
  rewarded caller fee s =
      if leb fee 0
      then s
      else raise (lp_fee_slot caller) fee (
          raise total_rewards fee
            (raise sway_rewards (fee - fee / 2) (raise way_rewards (fee / 2) s)))

  reward_mint-state :
      (caller : Bytes) (fee : ℕ) (s : StateDb)
      → is_panic (reward_mint caller fee s).0 ≡ false
      → reward_mint caller fee s ≡ (ok tt, rewarded caller fee s)
  unfolding reward_mint rewarded raise slot put
  reward_mint-state caller fee s calm = ground arith

  at-raise : (j k : Bytes) (a : ℕ) (s : StateDb) → at j (raise k a s) ≡ at j s
  unfolding raise put
  at-raise j k a s = at-pool j (storage_key k) (slot k s + a) s

  pub at-rewarded :
      (j caller : Bytes) (fee : ℕ) (s : StateDb) → at j (rewarded caller fee s) ≡ at j s
  unfolding rewarded
  at-rewarded j caller fee s = ground (
    arith,
    at-raise j (lp_fee_slot caller) fee (
        raise total_rewards fee
          (raise sway_rewards (fee - fee / 2) (raise way_rewards (fee / 2) s))),
    at-raise j total_rewards fee
        (raise sway_rewards (fee - fee / 2) (raise way_rewards (fee / 2) s)),
    at-raise j sway_rewards (fee - fee / 2) (raise way_rewards (fee / 2) s),
    at-raise j way_rewards (fee / 2) s,
  )

  -- The fee of the caller, and a slot that no reward touches.
  pub slot-rewarded :
      (caller : Bytes) (fee : ℕ) (s : StateDb)
      → (slot (lp_fee_slot caller) (rewarded caller fee s) ≡ slot (lp_fee_slot caller) s + fee)
        × (slot (minted_debt_slot caller) (rewarded caller fee s)
            ≡ slot (minted_debt_slot caller) s)
  unfolding rewarded bytes_eq
  slot-rewarded caller fee s = ground (
    arith,
    bytes_eq_refl caller,
    own (lp_fee_slot caller) refl refl refl,
    own (minted_debt_slot caller) refl refl refl,
    slot-raise (lp_fee_slot caller) (lp_fee_slot caller) fee (
        raise total_rewards fee
          (raise sway_rewards (fee - fee / 2) (raise way_rewards (fee / 2) s))),
    slot-raise (minted_debt_slot caller) (lp_fee_slot caller) fee (
        raise total_rewards fee
          (raise sway_rewards (fee - fee / 2) (raise way_rewards (fee / 2) s))),
  )
    where
      own :
          (j : Bytes)
          → bytes_eq total_rewards j ≡ false
          → bytes_eq sway_rewards j ≡ false
          → bytes_eq way_rewards j ≡ false
          → slot j (
              raise total_rewards fee
                (raise sway_rewards (fee - fee / 2) (raise way_rewards (fee / 2) s)))
            ≡ slot j s
      own j a b c = ground (
        arith,
        a,
        b,
        c,
        slot-raise j total_rewards fee
            (raise sway_rewards (fee - fee / 2) (raise way_rewards (fee / 2) s)),
        slot-raise j sway_rewards (fee - fee / 2) (raise way_rewards (fee / 2) s),
        slot-raise j way_rewards (fee / 2) s,
      )

  -- The writes of an accepted mint.
  pub minted : Bytes → Bytes → ℕ → ℕ → ℕ → StateDb → StateDb
  minted vault_id caller debt a block s =
      let s₁ = sstore vault_addr (debt_key vault_id) (debt + a) (touch vault_addr s) in
      let s₂ =
        sstore vault_addr (storage_key total_debt)
          (at (storage_key total_debt) (touch vault_addr s₁) + a) (touch vault_addr s₁) in
      add_log vault_addr
        (storage_key (codes "Minted") ∷ storage_key vault_id ∷ storage_key caller ∷ [])
        (big_bytes a) block (raise (minted_debt_slot caller) a (touch pool_addr s₂))

  record_mint-state :
      (vault_id caller : Bytes) (debt a block : ℕ) (s : StateDb)
      → is_panic (record_mint vault_id caller debt a block s).0 ≡ false
      → record_mint vault_id caller debt a block s
        ≡ (ok vault_id, minted vault_id caller debt a block s)
  unfolding record_mint minted at raise slot put
  record_mint-state vault_id caller debt a block s calm = ground arith

  pub at-minted :
      (vault_id caller : Bytes) (debt a block : ℕ) (s : StateDb)
      → bytes_eq (storage_key total_debt) (debt_key vault_id) ≡ false
      → at (debt_key vault_id) (minted vault_id caller debt a block s) ≡ debt + a
  unfolding minted
  at-minted vault_id caller debt a block s differ =
      simp (at-add_log, at-raise, at-touch, at-sstore, differ, bytes_eq_refl)

  slot-sstore : (j k : Bytes) (v : ℕ) (s : StateDb) → slot j (sstore vault_addr k v s) ≡ slot j s
  unfolding slot bytes_eq pool_addr vault_addr
  slot-sstore j k v s = sload-sstore pool_addr (storage_key j) vault_addr k v s

  pub slot-minted :
      (j vault_id caller : Bytes) (debt a block : ℕ) (s : StateDb)
      → slot j (minted vault_id caller debt a block s) ≡ (
          if bytes_eq (minted_debt_slot caller) j
          then slot (minted_debt_slot caller) s + a
          else slot j s)
  unfolding minted
  slot-minted j vault_id caller debt a block s =
      simp (slot-add_log, slot-raise, slot-touch, slot-sstore)

  module _ (vault_id caller : Bytes) (debt a : ℕ) (cs : Collaterals) (fee block : ℕ)
      (s : StateDb) where
    pub charge_and_mint-state :
        is_panic (charge_and_mint vault_id caller debt a cs fee block s).0 ≡ false
        → charge_and_mint vault_id caller debt a cs fee block s ≡ (
            if is_above_min_c_ratio cs (debt + a) 0
            then (ok vault_id, minted vault_id caller debt a block (rewarded caller fee s))
            else (err mint_below_ratio, rewarded caller fee s))
    unfolding charge_and_mint
    charge_and_mint-state calm = ground (
      arith,
      reward_mint-state caller fee s,
      record_mint-state vault_id caller debt a block (rewarded caller fee s),
    )
