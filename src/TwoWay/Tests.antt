-- ===== src/TwoWay/Tests.antt =====
-- Runs of the vaults, and their theorems at concrete inputs.
use waychain_consensus.Prelude.{
  ◌+◌, ◌-◌, ◌≡◌, refl, true, ◌∷◌, ◌++◌, ◌&&◌, is_ok, leb, if◌then◌else◌, codes, Bytes, bytes_eq,
  replicate, slice, length, be_value, lookup, lookup_or, insert,
}
use waychain_consensus.Hashing.{plain_digest}
use waychain_consensus.State.{StateDb, new_state_db, touch, account_at, put_account, add_log}
use waychain_consensus.State.Storage.{sload, sstore}
use waychain_consensus.Precompile.{be_bytes, read_slot, storage_key}
use waychain_consensus.StabilityPool.{
  pool_addr, vault_addr, debt_key, lp_fee_slot, minted_debt_slot,
}
use waychain_consensus.StabilityPool.Moves.{slot}
use waychain_consensus.TwoWay.{
  collateral_key, collaterals_in, collateral_name, total_debt, two_way_mint, two_way_burn,
  two_way_liquidate,
}
use waychain_consensus.TwoWay.Slots.{at, slots_of}
use waychain_consensus.TwoWay.Burning.{two_way_burn_exact}
use waychain_consensus.TwoWay.Liquidation.{may_liquidate, two_way_liquidate_exact}
use waychain_consensus.TwoWay.Minting.{mint_ready, mint_allowed, mint_fee, two_way_mint_exact}

abbrev ann : Bytes
ann = codes "ann"

abbrev vault : Bytes
vault = replicate 32 9

-- A vault with 1350 units of a collateral.
abbrev filled : StateDb
filled = sstore vault_addr (collateral_key vault (codes "USDX")) 1350 new_state_db

abbrev mint_input : Bytes
mint_input = 0 ∷ 0 ∷ 0 ∷ 0 ∷ (vault ++ be_bytes 32 1000)

abbrev minted : StateDb
minted = (two_way_mint mint_input ann 1 filled).1

two_way_mint_exact_example :
    let accepted = mint_ready mint_input ann filled && mint_allowed mint_input filled in
    (is_ok (two_way_mint mint_input ann 1 filled).0 ≡ accepted)
    × (at (debt_key (slice mint_input 4 36)) minted ≡ (
        if accepted
        then at (debt_key (slice mint_input 4 36)) filled + read_slot mint_input 36
        else at (debt_key (slice mint_input 4 36)) filled))
    × (slot (minted_debt_slot ann) minted ≡ (
        if accepted
        then slot (minted_debt_slot ann) filled + read_slot mint_input 36
        else slot (minted_debt_slot ann) filled))
    × (slot (lp_fee_slot ann) minted ≡ (
        if mint_ready mint_input ann filled
        then slot (lp_fee_slot ann) filled + mint_fee mint_input filled
        else slot (lp_fee_slot ann) filled))
unfolding bytes_eq be_bytes read_slot be_value two_way_mint two_way_burn two_way_liquidate sload
    sstore account_at put_account lookup_or lookup insert touch pool_addr vault_addr collaterals_in
    at slots_of slot
two_way_mint_exact_example = two_way_mint_exact mint_input ann 1 filled refl refl

-- The mint of this example is accepted: 135 per cent.
mint_test : (mint_ready mint_input ann filled ≡ true) × (mint_allowed mint_input filled ≡ true)
unfolding bytes_eq be_bytes read_slot be_value two_way_mint two_way_burn two_way_liquidate sload
    sstore account_at put_account lookup_or lookup insert touch pool_addr vault_addr collaterals_in
    at slots_of slot mint_ready mint_allowed
mint_test = (refl, refl)

two_way_liquidate_exact_example :
    let s' = (two_way_liquidate mint_input ann 2 minted).1 in
    let id = slice mint_input 4 36 in
    (is_ok (two_way_liquidate mint_input ann 2 minted).0 ≡ may_liquidate mint_input minted)
    × (at (debt_key id) s'
        ≡ (if may_liquidate mint_input minted then 0 else at (debt_key id) minted))
    × (at (storage_key total_debt) s' ≡ (
        if may_liquidate mint_input minted
        then at (storage_key total_debt) minted - at (debt_key id) minted
        else at (storage_key total_debt) minted))
    × (collaterals_in id (slots_of s') ≡ collaterals_in id (slots_of minted))
unfolding bytes_eq be_bytes read_slot be_value two_way_mint two_way_burn two_way_liquidate sload
    sstore account_at put_account lookup_or lookup insert touch pool_addr vault_addr collaterals_in
    at slots_of slot collateral_name add_log
two_way_liquidate_exact_example = two_way_liquidate_exact mint_input ann 2 minted refl refl refl

-- What has just been minted at 135 per cent can be liquidated at once.
liquidate_test : may_liquidate mint_input minted ≡ true
unfolding bytes_eq be_bytes read_slot be_value two_way_mint two_way_burn two_way_liquidate sload
    sstore account_at put_account lookup_or lookup insert touch pool_addr vault_addr collaterals_in
    at slots_of slot may_liquidate collateral_name add_log
liquidate_test = refl

two_way_burn_exact_example :
    (is_ok (two_way_burn mint_input ann 2 minted).0 ≡ leb 68 (length mint_input))
    × ((j : Bytes)
        → at j (two_way_burn mint_input ann 2 minted).1 ≡ (
            if leb 68 (length mint_input)
            then (if bytes_eq (storage_key total_debt) j
                then at (storage_key total_debt) minted - read_slot mint_input 36
                else if bytes_eq (debt_key (slice mint_input 4 36)) j
                then at (debt_key (slice mint_input 4 36)) minted - read_slot mint_input 36
                else at j minted)
            else at j minted))
unfolding bytes_eq be_bytes read_slot be_value two_way_mint two_way_burn two_way_liquidate sload
    sstore account_at put_account lookup_or lookup insert touch pool_addr vault_addr collaterals_in
    at slots_of slot add_log
two_way_burn_exact_example = two_way_burn_exact mint_input ann 2 minted refl refl
