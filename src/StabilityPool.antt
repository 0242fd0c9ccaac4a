-- ===== src/StabilityPool.antt =====
-- evm/stability_pool.go: the stability pool of the 2WAY stablecoin (precompile 0x19). Liquidity
-- providers deposit and withdraw, and the pool absorbs the debt of vaults.
pub mod Moves
pub mod Deposits
pub mod Rewards
pub mod Backing
pub mod Calls
pub mod Ledger
mod Tests
use waychain_consensus.Prelude.{
  ℕ, ◌+◌, ◌*◌, ◌/◌, ◌-◌, ◌^◌, ◌≡◌, Bool, true, false, List, [], ◌∷◌, ◌++◌, Outcome, ok, err, panic,
  ltb, leb, ◌==◌, if◌then◌else◌, not, Bytes, codes, length, slice, hex2, replicate,
}
use waychain_consensus.Hashing.{Sha256}
use waychain_consensus.State.{StateDb}
use waychain_consensus.Precompile.{
  Call, pure, ◌>>=◌, ◌>>◌, require, open_account, load, store, store_big, emit, fill_bytes,
  precompile_addr_hex, storage_key, word, big_bytes, bool_result, selector_bytes, read_slot,
  abs_diff,
}

pub data PoolError : Type 0 where
  input_too_short : PoolError
  deposit_too_short : PoolError
  deposit_not_positive : PoolError
  active_debt : PoolError
  withdraw_too_short : PoolError
  withdraw_not_positive : PoolError
  exceeds_deposit : PoolError
  no_rewards : PoolError
  absorb_too_short : PoolError
  vault_without_debt : PoolError
  get_deposit_too_short : PoolError
  unknown_selector : ℕ → PoolError

-- The addresses of the pool and of the vaults.
unfoldable pub pool_addr : Bytes
unfolding precompile_addr_hex
pool_addr = precompile_addr_hex 25

unfoldable pub vault_addr : Bytes
unfolding precompile_addr_hex
vault_addr = precompile_addr_hex 24

-- `debtKey` of evm/two_way.go: the prefix and the first 31 bytes, not hashed
abbrev pub debt_key : Bytes → Bytes
debt_key vault_id = 3 ∷ slice vault_id 0 31

-- `fmt.Sprintf("%x", bs)`
unfoldable pub hex_string : Bytes → Bytes
unfolding hex2
hex_string [] = []
hex_string (b ∷ bs) = hex2 b ++ hex_string bs

-- The hashed text of each key.
abbrev pub deposit_slot : Bytes → Bytes
deposit_slot user = 2 ∷ user

abbrev pub reward_slot : Bytes → Bytes
reward_slot user = 3 ∷ user

abbrev pub lp_fee_slot : Bytes → Bytes
lp_fee_slot user = 4 ∷ user

abbrev pub minted_debt_slot : Bytes → Bytes
minted_debt_slot user = 5 ∷ user

abbrev pub total_deposits : Bytes
total_deposits = codes "totalDeposits"

abbrev pub two_way_balance : Bytes
two_way_balance = codes "twoWayBalance"

abbrev pub total_rewards : Bytes
total_rewards = codes "totalRewards"

abbrev pub way_rewards : Bytes
way_rewards = codes "wayRewards"

abbrev pub sway_rewards : Bytes
sway_rewards = codes "swayRewards"

module _ ⦃h : Sha256⦄ where
  -- `stabilityMintedDebt`
  unfoldable pub stability_minted_debt : {E : Type 0} → Bytes → Call E ℕ
  stability_minted_debt user = do
    open_account pool_addr
    load pool_addr (storage_key (minted_debt_slot user))

  -- `addStabilityMintedDebt`
  unfoldable pub add_stability_minted_debt : {E : Type 0} → Bytes → ℕ → Call E (Unit {0})
  add_stability_minted_debt user amount = do
    open_account pool_addr
    debt ← load pool_addr (storage_key (minted_debt_slot user))
    store_big pool_addr (storage_key (minted_debt_slot user)) (debt + amount)

  -- `reduceStabilityMintedDebt`: a negative difference becomes zero, as on the naturals.
  unfoldable pub reduce_stability_minted_debt : {E : Type 0} → Bytes → ℕ → Call E (Unit {0})
  reduce_stability_minted_debt user amount = do
    open_account pool_addr
    current ← load pool_addr (storage_key (minted_debt_slot user))
    store_big pool_addr (storage_key (minted_debt_slot user)) (current - amount)

  -- `getVaultDebt` of evm/two_way.go
  unfoldable pub get_vault_debt : {E : Type 0} → Bytes → Call E ℕ
  get_vault_debt vault_id = do open_account vault_addr; load vault_addr (debt_key vault_id)

  -- `stabilityDeposit`
  unfoldable pub stability_deposit : Bytes → Bytes → ℕ → Call PoolError Bytes
  unfolding stability_minted_debt
  stability_deposit input caller block = do
    let amount = read_slot input 4
    require (leb 36 (length input)) deposit_too_short
    require (ltb 0 amount) deposit_not_positive
    open_account pool_addr
    debt ← stability_minted_debt caller
    require (not (ltb 0 debt)) active_debt
    current ← load pool_addr (storage_key (deposit_slot caller))
    store_big pool_addr (storage_key (deposit_slot caller)) (current + amount)
    total ← load pool_addr (storage_key total_deposits)
    store_big pool_addr (storage_key total_deposits) (total + amount)
    held ← load pool_addr (storage_key two_way_balance)
    store_big pool_addr (storage_key two_way_balance) (held + amount)
    emit pool_addr (storage_key (codes "Deposited") ∷ storage_key caller ∷ []) (big_bytes amount)
        block
    pure (word amount)

  -- `stabilityWithdraw`. The two totals are written as absolute values, since a slot has no sign.
  unfoldable pub stability_withdraw : Bytes → Bytes → ℕ → Call PoolError Bytes
  stability_withdraw input caller block = do
    let amount = read_slot input 4
    require (leb 36 (length input)) withdraw_too_short
    require (ltb 0 amount) withdraw_not_positive
    open_account pool_addr
    current ← load pool_addr (storage_key (deposit_slot caller))
    require (leb amount current) exceeds_deposit
    store_big pool_addr (storage_key (deposit_slot caller)) (current - amount)
    total ← load pool_addr (storage_key total_deposits)
    store_big pool_addr (storage_key total_deposits) (abs_diff total amount)
    held ← load pool_addr (storage_key two_way_balance)
    store_big pool_addr (storage_key two_way_balance) (abs_diff held amount)
    emit pool_addr (storage_key (codes "Withdrawn") ∷ storage_key caller ∷ []) (big_bytes amount)
        block
    pure (word amount)

  -- `stabilityClaimRewards`
  unfoldable pub stability_claim_rewards : Bytes → Bytes → ℕ → Call PoolError Bytes
  stability_claim_rewards input caller block = do
    open_account pool_addr
    rewards ← load pool_addr (storage_key (reward_slot caller))
    fees ← load pool_addr (storage_key (lp_fee_slot caller))
    let pending = rewards + fees
    require (ltb 0 pending) no_rewards
    store_big pool_addr (storage_key (reward_slot caller)) 0
    store_big pool_addr (storage_key (lp_fee_slot caller)) 0
    store_big pool_addr (storage_key total_rewards) 0
    store_big pool_addr (storage_key way_rewards) 0
    store_big pool_addr (storage_key sway_rewards) 0
    emit pool_addr (storage_key (codes "RewardsClaimed") ∷ storage_key caller ∷ [])
        (big_bytes pending) block
    fill_bytes pending

  -- `distributeRewards`
  unfoldable pub distribute_rewards : ℕ → ℕ → Call PoolError (Unit {0})
  distribute_rewards total reward =
      if leb reward 0 then pure tt else if leb total 0 then pure tt else do
        way ← load pool_addr (storage_key way_rewards)
        store_big pool_addr (storage_key way_rewards) (way + reward / 2)
        sway ← load pool_addr (storage_key sway_rewards)
        store_big pool_addr (storage_key sway_rewards) (sway + (reward - reward / 2))
        all ← load pool_addr (storage_key total_rewards)
        store_big pool_addr (storage_key total_rewards) (all + reward)

  -- The tenth of the debt that goes to the depositors, where there are any.
  unfoldable pub pay_penalty : ℕ → ℕ → Call PoolError (Unit {0})
  unfolding distribute_rewards
  pay_penalty total debt =
      if ltb 0 total then distribute_rewards total (debt * 1000 / 10000) else pure tt

  unfoldable pub log_absorbed : Bytes → ℕ → ℕ → Call PoolError Bytes
  log_absorbed vault_id debt block = do
    emit pool_addr (storage_key (codes "Absorbed") ∷ storage_key vault_id ∷ []) (big_bytes debt)
        block
    pure (bool_result true)

  unfoldable pub reward_and_log : Bytes → ℕ → ℕ → Call PoolError Bytes
  unfolding pay_penalty log_absorbed
  reward_and_log vault_id debt block = do
    total ← load pool_addr (storage_key total_deposits)
    pay_penalty total debt
    log_absorbed vault_id debt block

  -- `stabilityAbsorb`, past the test of the pool's balance
  unfoldable pub absorb_debt : Bytes → ℕ → ℕ → ℕ → Call PoolError Bytes
  unfolding reward_and_log
  absorb_debt vault_id debt held block = do
    store_big pool_addr (storage_key two_way_balance) (abs_diff held debt)
    reward_and_log vault_id debt block

  -- `stabilityAbsorb`
  unfoldable pub stability_absorb : Bytes → Bytes → ℕ → Call PoolError Bytes
  unfolding absorb_debt get_vault_debt
  stability_absorb input caller block = do
    let vault_id = slice input 4 36
    require (leb 36 (length input)) absorb_too_short
    debt ← get_vault_debt vault_id
    require (ltb 0 debt) vault_without_debt
    open_account pool_addr
    held ← load pool_addr (storage_key two_way_balance)
    if ltb held debt then pure (bool_result false) else absorb_debt vault_id debt held block

  -- `stabilityGetDeposit`
  unfoldable pub stability_get_deposit : Bytes → Bytes → Call PoolError Bytes
  unfolding hex_string
  stability_get_deposit input caller = do
    let user = hex_string (slice input 4 36)
    require (leb 36 (length input)) get_deposit_too_short
    open_account pool_addr
    deposit ← load pool_addr (storage_key (deposit_slot user))
    fill_bytes deposit

  -- `stabilityGetPoolStats`
  unfoldable pub stability_get_pool_stats : Bytes → Bytes → Call PoolError Bytes
  stability_get_pool_stats input caller = do
    open_account pool_addr
    total ← load pool_addr (storage_key total_deposits)
    held ← load pool_addr (storage_key two_way_balance)
    way ← load pool_addr (storage_key way_rewards)
    sway ← load pool_addr (storage_key sway_rewards)
    first ← fill_bytes total
    second ← fill_bytes held
    third ← fill_bytes (way + sway)
    pure (first ++ second ++ third)

  -- `stabilityPoolPrecompile`
  unfoldable pub stability_pool_precompile : Bytes → Bytes → ℕ → Call PoolError Bytes
  unfolding stability_deposit stability_withdraw stability_claim_rewards stability_get_deposit
      stability_get_pool_stats stability_absorb
  stability_pool_precompile input caller block =
      let sel = selector_bytes input in
      if ltb (length input) 4
      then (λ s. (err input_too_short, s))
      else if sel == 1311137946
      then stability_deposit input caller block
      else if sel == 773488093
      then stability_withdraw input caller block
      else if sel == 1802453856
      then stability_claim_rewards input caller block
      else if sel == 1012883328
      then stability_get_deposit input caller
      else if sel == 2355053008
      then stability_get_pool_stats input caller
      else if sel == 2444725428
      then stability_absorb input caller block
      else (λ s. (err (unknown_selector sel), s))
