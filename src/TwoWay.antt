-- ===== src/TwoWay.antt =====
-- evm/two_way.go: the vaults of the 2WAY stablecoin (precompile 0x18). A vault holds collateral under
-- keys that spell its identifier and the collateral's name, and a debt under a key of its own.
-- The storage of the account is an association list, whose order stands for that of Go's `range`.
mod Keys
pub mod Slots
pub mod Burning
pub mod Liquidation
pub mod Charging
pub mod Minting
mod Tests
unfoldable pub use Keys.*
use waychain_consensus.Prelude.{
  ℕ, ◌+◌, ◌*◌, ◌/◌, ◌%◌, ◌-◌, ◌^◌, Bool, true, false, List, [], ◌∷◌, ◌++◌, Option, none, some, ◌&&◌,
  ltb, leb, ◌==◌, if◌then◌else◌, not, ok, err, Bytes, bytes_key, codes, length, slice, take,
  replicate, bytes_eq, lookup, lookup_or, contains_key, insert,
}
use waychain_consensus.Hashing.{Sha256}
use waychain_consensus.State.{account_at, get_account}
use waychain_consensus.Precompile.{
  Call, pure, ◌>>=◌, ◌>>◌, require, open_account, load, store_big, emit, fill_bytes, storage_key,
  word, big_bytes, selector_bytes, read_slot,
}
use waychain_consensus.StabilityPool.{
  pool_addr, vault_addr, debt_key, deposit_slot, lp_fee_slot, total_rewards, way_rewards,
  sway_rewards, stability_minted_debt, add_stability_minted_debt, reduce_stability_minted_debt,
  get_vault_debt,
}

module _ ⦃h : Sha256⦄ where
  -- The oracle's price of a collateral, 10^8 where none is set.
  unfoldable pub price_of : Bytes → List (Bytes × ℕ) → ℕ
  price_of name slots =
      let price = lookup_or 0 (storage_key (price_slot name)) slots in
      if price == 0 then 100000000 else price

  -- The loop of `getVaultCollateralValueUSD`
  unfoldable pub value_of : Collaterals → List (Bytes × ℕ) → ℕ
  unfolding price_of
  value_of [] slots = 0
  value_of ((name, amount) ∷ cs) slots =
      amount * price_of name slots / 100000000 + value_of cs slots

  -- `isAboveLiquidationRatio`
  unfoldable pub is_above_liquidation_ratio : Bytes → ℕ → List (Bytes × ℕ) → Bool
  unfolding value_of collaterals_in
  is_above_liquidation_ratio vault_id debt slots =
      if debt == 0
      then true
      else ltb 14000 (value_of (collaterals_in vault_id slots) slots * 10000 / debt)

  -- The fee of `getCollateralParam`, and the loop of `twoWayMint` that takes the first positive one.
  unfoldable pub stability_fee : Bytes → List (Bytes × ℕ) → ℕ
  stability_fee name slots =
      read_uint16 (lookup_or 0 (storage_key (param_slot (name ++ codes ":fee"))) slots) 150

  unfoldable pub fee_bps : Collaterals → List (Bytes × ℕ) → ℕ
  unfolding stability_fee
  fee_bps [] slots = 150
  fee_bps ((name, amount) ∷ cs) slots =
      let rest = fee_bps cs slots in
      if ltb 0 (stability_fee name slots) then stability_fee name slots else rest

  -- `isAcceptedCollateral`
  abbrev pub is_accepted_collateral : Bytes → List (Bytes × ℕ) → Bool
  is_accepted_collateral name slots =
      contains_key (storage_key (param_slot (name ++ codes ":minCRatio"))) slots

  -- `acc.Storage` of the vaults' account
  abbrev pub vault_slots : Call VaultError (List (Bytes × ℕ))
  vault_slots = do open_account vault_addr; λ s. (ok (account_at vault_addr s).storage, s)

  -- `addTotalDebt` and `reduceTotalDebt`: a negative difference becomes zero.
  unfoldable pub add_total_debt : ℕ → Call VaultError (Unit {0})
  add_total_debt amount = do
    open_account vault_addr
    current ← load vault_addr (storage_key total_debt)
    store_big vault_addr (storage_key total_debt) (current + amount)

  unfoldable pub reduce_total_debt : ℕ → Call VaultError (Unit {0})
  reduce_total_debt amount = do
    open_account vault_addr
    current ← load vault_addr (storage_key total_debt)
    store_big vault_addr (storage_key total_debt) (current - amount)

  -- The log with the vault and the caller, and the answer, of the operations that change a vault.
  unfoldable pub log_vault : Bytes → Bytes → Bytes → ℕ → ℕ → Call VaultError Bytes
  log_vault event vault_id caller amount block = do
    emit vault_addr (storage_key event ∷ storage_key vault_id ∷ storage_key caller ∷ [])
        (big_bytes amount) block
    pure vault_id

  -- `twoWayDeposit`: the amount replaces what was there.
  unfoldable pub two_way_deposit : Bytes → Bytes → ℕ → Call VaultError Bytes
  unfolding trim_right_zeros log_vault
  two_way_deposit input caller block = do
    let name = trim_right_zeros (slice input 36 56)
    let amount = read_slot input 56
    require (leb 88 (length input)) deposit_too_short
    slots ← vault_slots
    require (is_accepted_collateral name slots) (collateral_not_accepted name)
    store_big vault_addr (collateral_key (slice input 4 36) name) amount
    log_vault (codes "Deposited") (slice input 4 36) caller amount block

  -- The rewards of a mint: half of the fee for each bucket, and the whole fee for the caller.
  unfoldable pub reward_mint : Bytes → ℕ → Call VaultError (Unit {0})
  reward_mint caller fee = if leb fee 0 then pure tt else do
    way ← load pool_addr (storage_key way_rewards)
    store_big pool_addr (storage_key way_rewards) (way + fee / 2)
    sway ← load pool_addr (storage_key sway_rewards)
    store_big pool_addr (storage_key sway_rewards) (sway + (fee - fee / 2))
    all ← load pool_addr (storage_key total_rewards)
    store_big pool_addr (storage_key total_rewards) (all + fee)
    own ← load pool_addr (storage_key (lp_fee_slot caller))
    store_big pool_addr (storage_key (lp_fee_slot caller)) (own + fee)

  -- `twoWayMint`, past the check of the ratio
  unfoldable pub record_mint : Bytes → Bytes → ℕ → ℕ → ℕ → Call VaultError Bytes
  unfolding add_total_debt add_stability_minted_debt log_vault
  record_mint vault_id caller debt amount block = do
    open_account vault_addr
    store_big vault_addr (debt_key vault_id) (debt + amount)
    add_total_debt amount
    add_stability_minted_debt caller amount
    log_vault (codes "Minted") vault_id caller amount block

  -- `twoWayMint`, past the guards: the rewards are credited before the ratio is checked.
  unfoldable pub charge_and_mint :
      Bytes → Bytes → ℕ → ℕ → Collaterals → ℕ → ℕ → Call VaultError Bytes
  unfolding reward_mint is_above_min_c_ratio record_mint
  charge_and_mint vault_id caller debt amount cs fee block = do
    reward_mint caller fee
    require (is_above_min_c_ratio cs (debt + amount) 0) mint_below_ratio
    record_mint vault_id caller debt amount block

  -- `twoWayMint`, the guards on the caller
  unfoldable pub check_minter : Bytes → Call VaultError (Unit {0})
  unfolding stability_minted_debt
  check_minter caller = do
    own_debt ← stability_minted_debt caller
    require (not (ltb 0 own_debt)) active_debt
    open_account pool_addr
    own_deposit ← load pool_addr (storage_key (deposit_slot caller))
    require (not (ltb 0 own_deposit)) provides_liquidity

  -- `twoWayMint`, from the vault's state on
  unfoldable pub mint_from_vault : Bytes → Bytes → ℕ → ℕ → Call VaultError Bytes
  unfolding get_vault_debt collaterals_in total_of fee_bps charge_and_mint
  mint_from_vault vault_id caller amount block = do
    slots ← vault_slots
    debt ← get_vault_debt vault_id
    let cs = collaterals_in vault_id slots
    require (not (total_of cs == 0)) no_collateral
    charge_and_mint vault_id caller debt amount cs (amount * fee_bps cs slots / 10000) block

  -- `twoWayMint`
  unfoldable pub two_way_mint : Bytes → Bytes → ℕ → Call VaultError Bytes
  unfolding check_minter mint_from_vault
  two_way_mint input caller block = do
    require (leb 68 (length input)) mint_too_short
    check_minter caller
    mint_from_vault (slice input 4 36) caller (read_slot input 36) block

  -- `twoWayWithdraw`
  unfoldable pub two_way_withdraw : Bytes → Bytes → ℕ → Call VaultError Bytes
  unfolding trim_right_zeros get_vault_debt collaterals_in is_above_min_c_ratio log_vault
  two_way_withdraw input caller block = do
    let vault_id = slice input 4 36
    let name = trim_right_zeros (slice input 36 56)
    let amount = read_slot input 56
    require (leb 88 (length input)) withdraw_too_short
    slots ← vault_slots
    debt ← get_vault_debt vault_id
    let cs = collaterals_in vault_id slots
    let current = lookup_or 0 name cs
    require (contains_key name cs && leb amount current) exceeds_deposit
    require (is_above_min_c_ratio (insert name (current - amount) cs) debt 0) withdraw_below_ratio
    store_big vault_addr (collateral_key vault_id name) (current - amount)
    log_vault (codes "Withdrawn") vault_id caller amount block

  -- `twoWayBurn`
  unfoldable pub two_way_burn : Bytes → Bytes → ℕ → Call VaultError Bytes
  unfolding reduce_stability_minted_debt reduce_total_debt log_vault
  two_way_burn input caller block = do
    let vault_id = slice input 4 36
    let amount = read_slot input 36
    require (leb 68 (length input)) burn_too_short
    open_account vault_addr
    current ← load vault_addr (debt_key vault_id)
    store_big vault_addr (debt_key vault_id) (current - amount)
    reduce_stability_minted_debt caller amount
    reduce_total_debt amount
    log_vault (codes "Burned") vault_id caller amount block

  -- `twoWayLiquidate`
  unfoldable pub two_way_liquidate : Bytes → Bytes → ℕ → Call VaultError Bytes
  unfolding get_vault_debt is_above_liquidation_ratio reduce_total_debt log_vault
  two_way_liquidate input caller block = do
    let vault_id = slice input 4 36
    require (leb 36 (length input)) liquidate_too_short
    slots ← vault_slots
    debt ← get_vault_debt vault_id
    require (not (is_above_liquidation_ratio vault_id debt slots)) above_liquidation_ratio
    open_account vault_addr
    store_big vault_addr (debt_key vault_id) 0
    reduce_total_debt debt
    log_vault (codes "Liquidated") vault_id caller debt block

  -- `twoWayGetVault`
  unfoldable pub two_way_get_vault : Bytes → Call VaultError Bytes
  unfolding get_vault_debt collaterals_in total_of
  two_way_get_vault input = do
    require (leb 36 (length input)) get_vault_too_short
    slots ← vault_slots
    debt ← get_vault_debt (slice input 4 36)
    first ← fill_bytes (total_of (collaterals_in (slice input 4 36) slots))
    second ← fill_bytes debt
    pure (first ++ second)

  -- `twoWayVaultCount`
  unfoldable pub two_way_vault_count : Call VaultError Bytes
  two_way_vault_count = do
    open_account vault_addr
    count ← load vault_addr (storage_key vault_count)
    fill_bytes count

  -- `twoWayGetStablecoinPrice`
  unfoldable pub two_way_get_stablecoin_price : Bytes → Call VaultError Bytes
  unfolding trim_right_zeros price_of
  two_way_get_stablecoin_price input = do
    require (leb 36 (length input)) get_price_too_short
    slots ← vault_slots
    fill_bytes (price_of (trim_right_zeros (slice input 4 36)) slots)

  -- `GetAccount(caller)` has a level of at least 2.
  abbrev pub is_oracle : Bytes → Call VaultError Bool
  is_oracle caller s =
      (ok (elim (get_account caller s) [ none ↦ false | some acc ↦ leb 2 acc.dox_dev_level ]), s)

  -- `twoWaySetStablecoinPrice`, which no selector reaches
  unfoldable pub two_way_set_stablecoin_price : Bytes → Bytes → Call VaultError Bytes
  unfolding trim_right_zeros
  two_way_set_stablecoin_price input caller = do
    let name = trim_right_zeros (slice input 4 36)
    let price = read_slot input 36
    require (leb 68 (length input)) set_price_too_short
    allowed ← is_oracle caller
    require allowed not_an_oracle
    open_account vault_addr
    store_big vault_addr (storage_key (price_slot name)) price
    emit vault_addr (storage_key (codes "PriceUpdated") ∷ storage_key name ∷ []) (big_bytes price) 0
    fill_bytes price

  -- `twoWayVaultPrecompile`
  unfoldable pub two_way_vault_precompile : Bytes → Bytes → ℕ → Call VaultError Bytes
  unfolding two_way_deposit two_way_mint two_way_withdraw two_way_burn two_way_liquidate
      two_way_get_vault two_way_vault_count two_way_get_stablecoin_price
  two_way_vault_precompile input caller block =
      let sel = selector_bytes input in
      if ltb (length input) 4
      then (λ s. (err input_too_short, s))
      else if sel == 4222832688
      then two_way_deposit input caller block
      else if sel == 3515211903
      then two_way_mint input caller block
      else if sel == 3921981714
      then two_way_withdraw input caller block
      else if sel == 235690430
      then two_way_burn input caller block
      else if sel == 1552643736
      then two_way_liquidate input caller block
      else if sel == 2662506224
      then two_way_get_vault input
      else if sel == 1739190517
      then two_way_vault_count
      else if sel == 2050707200
      then two_way_get_stablecoin_price input
      else (λ s. (err (unknown_selector sel), s))
