-- ===== src/SwayToken.antt =====
-- evm/sway_token.go: the SWAY token (precompile 0x24), with its supply, its three buckets of
-- rewards, and the balances in the accounts of their holders.
pub mod Minting
mod Tests
use waychain_consensus.Prelude.{
  ℕ, ◌+◌, ◌*◌, ◌/◌, ◌%◌, ◌-◌, ◌^◌, Bool, true, false, ◌||◌, ◌&&◌, not, [], ◌∷◌, ◌++◌, ltb, leb,
  ◌==◌, if◌then◌else◌, Bytes, bytes_eq, codes, length, ok, err, panic, none, some,
}
use waychain_consensus.Prelude.Hex.{hex}
use waychain_consensus.Hashing.{Sha256}
use waychain_consensus.State.{get_account}
use waychain_consensus.State.Storage.{sload}
use waychain_consensus.Precompile.{
  Call, pure, ◌>>=◌, ◌>>◌, require, open_account, load, store, store_big, fill_bytes,
  precompile_addr_hex, storage_key, word, selector_bytes, read_slot, read_address, abs_diff,
}

pub data SwayError : Type 0 where
  input_too_short : SwayError
  amount_not_positive : SwayError
  bucket_exhausted : Bytes → SwayError
  ceiling_exceeded : SwayError
  insufficient_balance : SwayError
  unauthorized_minter : SwayError
  unknown_selector : ℕ → SwayError

abbrev pub sway_initial_supply : ℕ
sway_initial_supply = 1000000000

abbrev pub sway_hard_ceiling : ℕ
sway_hard_ceiling = 5000000000

unfoldable pub sway_addr : Bytes
unfolding precompile_addr_hex
sway_addr = precompile_addr_hex 36

abbrev pub total_supply_slot : Bytes
total_supply_slot = codes "sway:totalSupply"

abbrev pub initialized_slot : Bytes
initialized_slot = codes "sway:initialized"

abbrev pub bucket_slot : Bytes → Bytes
bucket_slot name = codes "sway:bucket:" ++ name

abbrev pub holder_slot : Bytes → Bytes
holder_slot holder = 48 ∷ holder

abbrev pub dex_lp : Bytes
dex_lp = codes "dexLP"

abbrev pub future_tasks : Bytes
future_tasks = codes "futureTasks"

abbrev pub ecosystem : Bytes
ecosystem = codes "ecosystem"

-- `SwayEmissionBps`, by the phase of the policy
unfoldable pub sway_emission_bps : ℕ → ℕ
sway_emission_bps policy_phase = if policy_phase == 1 then 250 - 100 else 250 + 150

-- `SwayProjectedEmissionFromGBP`, by the earnings of the epoch
unfoldable pub sway_projected_emission : ℕ → ℕ → ℕ
sway_projected_emission earnings pct_bps =
    earnings * (365 * 24 * 3600 / (3 * 10000)) * pct_bps / 10000

module _ ⦃h : Sha256⦄ where
  -- `SwayInit`
  unfoldable pub sway_init : Call SwayError (Unit {0})
  sway_init = do
    open_account sway_addr
    done ← load sway_addr (storage_key initialized_slot)
    (if not (done == 0) then pure tt else do
      store sway_addr (storage_key total_supply_slot) sway_initial_supply
      store sway_addr (storage_key initialized_slot) 1
      store sway_addr (storage_key (bucket_slot future_tasks)) (sway_initial_supply * 45 / 100)
      store sway_addr (storage_key (bucket_slot dex_lp)) (sway_initial_supply * 20 / 100)
      store sway_addr (storage_key (bucket_slot ecosystem)) (sway_initial_supply * 35 / 100))

  -- `swayMintInternal` with a bucket: every caller names one. The ceiling is compared with the low
  -- 64 bits of the new total.
  unfoldable pub sway_mint_internal : Bytes → ℕ → Bytes → Call SwayError (Unit {0})
  sway_mint_internal to amount bucket = do
    require (ltb 0 amount) amount_not_positive
    open_account sway_addr
    remaining ← load sway_addr (storage_key (bucket_slot bucket))
    require (leb amount remaining) (bucket_exhausted bucket)
    total ← load sway_addr (storage_key total_supply_slot)
    require (leb ((total + amount) % 2 ^ 64) sway_hard_ceiling) ceiling_exceeded
    open_account to
    cur ← load to (storage_key (holder_slot to))
    store_big to (storage_key (holder_slot to)) (cur + amount)
    store_big sway_addr (storage_key total_supply_slot) (total + amount)
    left ← load sway_addr (storage_key (bucket_slot bucket))
    store sway_addr (storage_key (bucket_slot bucket)) (abs_diff left amount)

  -- `swayBurnInternal`
  unfoldable pub sway_burn_internal : Bytes → ℕ → Call SwayError (Unit {0})
  sway_burn_internal from amount = do
    require (ltb 0 amount) amount_not_positive
    open_account from
    cur ← load from (storage_key (holder_slot from))
    require (leb amount cur) insufficient_balance
    store from (storage_key (holder_slot from)) (cur - amount)
    open_account sway_addr
    total ← load sway_addr (storage_key total_supply_slot)
    store sway_addr (storage_key total_supply_slot) (abs_diff total amount)

  -- `SwayBurnFromFees`, which takes what the bucket of the ecosystem still has
  unfoldable pub sway_burn_from_fees : ℕ → Call SwayError ℕ
  sway_burn_from_fees fee_amount = if fee_amount * 2000 / 10000 == 0 then pure 0 else do
    open_account sway_addr
    eco ← load sway_addr (storage_key (bucket_slot ecosystem))
    (let burn = if ltb eco (fee_amount * 2000 / 10000) then eco else fee_amount * 2000 / 10000 in
        if burn == 0 then pure 0 else do
          store sway_addr (storage_key (bucket_slot ecosystem)) (eco - burn)
          total ← load sway_addr (storage_key total_supply_slot)
          store sway_addr (storage_key total_supply_slot) (abs_diff total burn)
          pure burn)

  -- mint, for the exchange and the stability pool
  unfoldable pub sway_mint : Bytes → Bytes → Call SwayError Bytes
  unfolding sway_mint_internal precompile_addr_hex hex
  sway_mint input caller = do
    require (bytes_eq caller (precompile_addr_hex 37) || bytes_eq caller (precompile_addr_hex 25))
        unauthorized_minter
    sway_mint_internal (hex (read_address input 4)) (read_slot input 24) dex_lp
    pure (1 ∷ [])

  -- mintToCaller, for the vaults and the tasks
  unfoldable pub sway_mint_to_caller : Bytes → Bytes → Call SwayError Bytes
  unfolding sway_mint_internal precompile_addr_hex
  sway_mint_to_caller input caller =
      if bytes_eq caller (precompile_addr_hex 24)
      then sway_mint_internal caller (read_slot input 4) dex_lp >> pure (1 ∷ [])
      else if bytes_eq caller (precompile_addr_hex 35)
      then sway_mint_internal caller (read_slot input 4) future_tasks >> pure (1 ∷ [])
      else λ s. (err unauthorized_minter, s)

  -- getBalance: the key has the bytes of the address, not its text. An account that is not there
  -- is a nil dereference.
  unfoldable pub sway_get_balance : Bytes → Call SwayError Bytes
  unfolding hex
  sway_get_balance input s = elim (get_account (hex (read_address input 4)) s) [
    | none ↦ (panic, s)
    | some acc ↦
        fill_bytes
          (sload (hex (read_address input 4)) (storage_key (holder_slot (read_address input 4))) s)
          s
  ]

  unfoldable pub sway_precompile : ℕ → Bytes → Bytes → Call SwayError Bytes
  unfolding sway_init sway_mint sway_mint_to_caller sway_burn_internal sway_get_balance
      sway_emission_bps hex word
  sway_precompile policy_phase input caller = do
    require (leb 4 (length input)) input_too_short
    (let sel = selector_bytes input in
        if sel == 0x0A1B2C3D
        then sway_init >> pure (1 ∷ [])
        else if sel == 0xA1B2C3E4
        then sway_mint input caller
        else if sel == 0xF6A7B8C9
        then sway_mint_to_caller input caller
        else if sel == 0xB2C3D4F5
        then sway_burn_internal (hex (read_address input 4)) (read_slot input 24) >> pure (1 ∷ [])
        else if sel == 0xC3D4E5A6
        then sway_get_balance input
        else if sel == 0xD4E5A6B7
        then (load sway_addr (storage_key total_supply_slot) >>= λ total. fill_bytes total)
        else if sel == 0xE5A6B7C8
        then pure (word (sway_emission_bps policy_phase))
        else if sel == 0x1A2B3C4D
        then (do
          open_account (hex (read_address input 4))
          store (hex (read_address input 4)) (storage_key (holder_slot (read_address input 4))) 1
          pure (1 ∷ []))
        else λ s. (err (unknown_selector sel), s))
