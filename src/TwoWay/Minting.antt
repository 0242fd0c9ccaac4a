-- ===== src/TwoWay/Minting.antt =====
-- What a mint does, and what a refused mint leaves behind.
use waychain_consensus.Prelude.{
  ℕ, ◌+◌, ◌*◌, ◌/◌, ◌≡◌, Bool, false, true, not, ◌&&◌, ok, err, Bool-cases, inl, inr, arith, ltb,
  leb, ◌==◌, if◌then◌else◌, is_ok, is_panic, Bytes, length, slice, bytes_eq, bytes_eq_refl, ◌∙◌,
}
use waychain_consensus.Hashing.{Sha256}
use waychain_consensus.State.{StateDb, touch}
use waychain_consensus.Precompile.{storage_key, read_slot}
use waychain_consensus.StabilityPool.{
  pool_addr, vault_addr, debt_key, get_vault_debt, deposit_slot, lp_fee_slot, minted_debt_slot,
  stability_minted_debt,
}
use waychain_consensus.StabilityPool.Moves.{slot}
use waychain_consensus.StabilityPool.Deposits.{slot-touch}
use waychain_consensus.TwoWay.{
  two_way_mint, charge_and_mint, total_debt, collaterals_in, total_of, fee_bps,
  is_above_min_c_ratio, mint_too_short, active_debt, provides_liquidity, no_collateral,
  check_minter, mint_from_vault,
}
use waychain_consensus.TwoWay.Slots.{at, slots_of, at-touch, slots_of-touch}
use waychain_consensus.TwoWay.Charging.{
  rewarded, at-rewarded, slot-rewarded, at-minted, slot-minted, charge_and_mint-state,
}

module _ ⦃h : Sha256⦄ where
  -- The guards before the fee: the input, the caller's debt and deposit, and the collateral.
  unfoldable pub mint_ready : Bytes → Bytes → StateDb → Bool
  unfolding total_of collaterals_in
  mint_ready input caller s =
      leb 68 (length input)
      && not (ltb 0 (slot (minted_debt_slot caller) s))
      && not (ltb 0 (slot (deposit_slot caller) s))
      && not (total_of (collaterals_in (slice input 4 36) (slots_of s)) == 0)

  -- The fee, and whether the ratio allows the new debt.
  unfoldable pub mint_fee : Bytes → StateDb → ℕ
  mint_fee input s =
      read_slot input 36
      * fee_bps (collaterals_in (slice input 4 36) (slots_of s)) (slots_of s)
      / 10000

  unfoldable pub mint_allowed : Bytes → StateDb → Bool
  mint_allowed input s =
      is_above_min_c_ratio (collaterals_in (slice input 4 36) (slots_of s))
        (at (debt_key (slice input 4 36)) s + read_slot input 36) 0

  slots-touched : (s : StateDb) → slots_of (touch vault_addr (touch vault_addr s)) ≡ slots_of s
  slots-touched s = simp slots_of-touch

  at-touched : (j : Bytes) (s : StateDb) → at j (touch vault_addr (touch vault_addr s)) ≡ at j s
  at-touched j s = simp at-touch

  check_minter-state :
      (caller : Bytes) (s : StateDb)
      → check_minter caller s ≡ (
          if ltb 0 (slot (minted_debt_slot caller) s)
          then (err active_debt, touch pool_addr s)
          else if ltb 0 (slot (deposit_slot caller) s)
          then (err provides_liquidity, touch pool_addr (touch pool_addr s))
          else (ok tt, touch pool_addr (touch pool_addr s)))
  unfolding check_minter stability_minted_debt slot
  check_minter-state caller s = ground (
    arith,
    slot-touch (minted_debt_slot caller) pool_addr s,
    slot-touch (deposit_slot caller) pool_addr (touch pool_addr s),
    slot-touch (deposit_slot caller) pool_addr s,
  )

  mint_from_vault-state :
      (vault_id caller : Bytes) (a block : ℕ) (s : StateDb)
      → let cs = collaterals_in vault_id (slots_of s) in
        mint_from_vault vault_id caller a block s ≡ (
          if total_of cs == 0
          then (err no_collateral, touch vault_addr (touch vault_addr s))
          else charge_and_mint vault_id caller
              (at (debt_key vault_id) s)
              a
              cs
              (a * fee_bps cs (slots_of s) / 10000)
              block
              (touch vault_addr (touch vault_addr s)))
  unfolding mint_from_vault get_vault_debt slots_of at
  mint_from_vault-state vault_id caller a block s =
      ground (arith, slots_of-touch vault_addr s, at-touched (debt_key vault_id) s)

  -- The state at which the fee is charged.
  opened : StateDb → StateDb
  opened s = touch vault_addr (touch vault_addr (touch pool_addr (touch pool_addr s)))

  opened-kept :
      (j k : Bytes) (s : StateDb)
      → (at j (opened s) ≡ at j s)
        × (slot k (opened s) ≡ slot k s)
        × (slots_of (opened s) ≡ slots_of s)
  unfolding opened
  opened-kept j k s = (simp at-touch, simp slot-touch, simp slots_of-touch)

  pool-kept :
      (j k : Bytes) (s : StateDb)
      → (at j (touch pool_addr (touch pool_addr s)) ≡ at j s)
        × (slots_of (touch pool_addr (touch pool_addr s)) ≡ slots_of s)
        × (slot k (touch pool_addr (touch pool_addr s)) ≡ slot k s)
        × (slot k (touch pool_addr s) ≡ slot k s)
        × (at j (touch pool_addr s) ≡ at j s)
  pool-kept j k s =
      (simp at-touch, simp slots_of-touch, simp slot-touch, simp slot-touch, simp at-touch)

  module _ (input caller : Bytes) (block : ℕ) (s : StateDb) where
    mint_from_vault-opened :
        mint_from_vault
          (slice input 4 36)
          caller
          (read_slot input 36)
          block
          (touch pool_addr (touch pool_addr s))
        ≡ (if total_of (collaterals_in (slice input 4 36) (slots_of s)) == 0
            then (err no_collateral, opened s)
            else charge_and_mint
                (slice input 4 36)
                caller
                (at (debt_key (slice input 4 36)) s)
                (read_slot input 36)
                (collaterals_in (slice input 4 36) (slots_of s))
                (mint_fee input s)
                block
                (opened s))
    unfolding opened mint_fee
    mint_from_vault-opened =
        mint_from_vault-state (slice input 4 36) caller (read_slot input 36) block
          (touch pool_addr (touch pool_addr s))
        ∙ simp (at-touch, slots_of-touch)

    two_way_mint-state : two_way_mint input caller block s ≡ (
        if leb 68 (length input)
        then (if ltb 0 (slot (minted_debt_slot caller) s)
            then (err active_debt, touch pool_addr s)
            else if ltb 0 (slot (deposit_slot caller) s)
            then (err provides_liquidity, touch pool_addr (touch pool_addr s))
            else mint_from_vault
                (slice input 4 36)
                caller
                (read_slot input 36)
                block
                (touch pool_addr (touch pool_addr s)))
        else (err mint_too_short, s))
    unfolding two_way_mint
    two_way_mint-state = ground (arith, check_minter-state caller s)

    two_way_mint-ready :
        mint_ready input caller s ≡ true
        → two_way_mint input caller block s
          ≡ charge_and_mint
              (slice input 4 36)
              caller
              (at (debt_key (slice input 4 36)) s)
              (read_slot input 36)
              (collaterals_in (slice input 4 36) (slots_of s))
              (mint_fee input s)
              block
              (opened s)
    unfolding mint_ready
    two_way_mint-ready ready = ground (arith, two_way_mint-state, mint_from_vault-opened)

    two_way_mint-unready :
        (j k : Bytes)
        → mint_ready input caller s ≡ false
        → (is_ok (two_way_mint input caller block s).0 ≡ false)
          × (at j (two_way_mint input caller block s).1 ≡ at j s)
          × (slot k (two_way_mint input caller block s).1 ≡ slot k s)
    unfolding mint_ready
    two_way_mint-unready j k unready =
        ground
          (arith, two_way_mint-state, mint_from_vault-opened, pool-kept j k s, opened-kept j k s)

  -- A mint that does not panic, for a vault whose debt slot is not that of the total: it is
  -- accepted exactly when the input is long enough, the caller has neither minted debt nor a
  -- deposit in the pool, the vault has collateral, and the collateral is at least 130 per cent of
  -- the debt with the new amount. Acceptance adds the amount to the debts of the vault and of the
  -- caller, a refusal leaves them. The fee is credited to the caller also where only the ratio
  -- refuses the mint.
  pub two_way_mint_exact :
      (input caller : Bytes) (block : ℕ) (s : StateDb)
      → is_panic (two_way_mint input caller block s).0 ≡ false
      → bytes_eq (storage_key total_debt) (debt_key (slice input 4 36)) ≡ false
      → let debt = at (debt_key (slice input 4 36)) s in
        let accepted = mint_ready input caller s && mint_allowed input s in
        let s' = (two_way_mint input caller block s).1 in
        (is_ok (two_way_mint input caller block s).0 ≡ accepted)
        × (at (debt_key (slice input 4 36)) s'
            ≡ (if accepted then debt + read_slot input 36 else debt))
        × (slot (minted_debt_slot caller) s' ≡ (
            if accepted
            then slot (minted_debt_slot caller) s + read_slot input 36
            else slot (minted_debt_slot caller) s))
        × (slot (lp_fee_slot caller) s' ≡ (
            if mint_ready input caller s
            then slot (lp_fee_slot caller) s + mint_fee input s
            else slot (lp_fee_slot caller) s))
  unfolding mint_allowed bytes_eq
  two_way_mint_exact input caller block s calm differ =
      elim (Bool-cases (mint_ready input caller s)) [
        | inl ready ↦ ground (
          arith,
          ready,
          two_way_mint-ready input caller block s ready,
          charge_and_mint-state (slice input 4 36) caller (at (debt_key (slice input 4 36)) s)
              (read_slot input 36) (collaterals_in (slice input 4 36) (slots_of s))
              (mint_fee input s) block (opened s),
          opened-kept (debt_key (slice input 4 36)) (minted_debt_slot caller) s,
          opened-kept (debt_key (slice input 4 36)) (lp_fee_slot caller) s,
          at-rewarded (debt_key (slice input 4 36)) caller (mint_fee input s) (opened s),
          slot-rewarded caller (mint_fee input s) (opened s),
          at-minted (slice input 4 36) caller (at (debt_key (slice input 4 36)) s)
              (read_slot input 36) block (rewarded caller (mint_fee input s) (opened s)) differ,
          slot-minted (lp_fee_slot caller) (slice input 4 36) caller
              (at (debt_key (slice input 4 36)) s) (read_slot input 36) block
              (rewarded caller (mint_fee input s) (opened s)),
          slot-minted (minted_debt_slot caller) (slice input 4 36) caller
              (at (debt_key (slice input 4 36)) s) (read_slot input 36) block
              (rewarded caller (mint_fee input s) (opened s)),
          bytes_eq_refl caller,
        )
        | inr unready ↦ ground (
          arith,
          unready,
          two_way_mint-unready input caller block s (debt_key (slice input 4 36))
              (minted_debt_slot caller) unready,
          two_way_mint-unready input caller block s (debt_key (slice input 4 36))
              (lp_fee_slot caller) unready,
        )
      ]
