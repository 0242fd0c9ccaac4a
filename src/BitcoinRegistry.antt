-- ===== src/BitcoinRegistry.antt =====
-- evm/precompiles.go, the registry of bitcoin that was committed to the chain (precompile 0x16).
-- The totals stand in the slots 0 and 1, whose keys are not hashed.
pub mod Committing
mod Tests
use waychain_consensus.Prelude.{
  ℕ, ◌+◌, ◌*◌, ◌/◌, ◌%◌, ◌^◌, Bool, true, false, [], ◌∷◌, ◌++◌, ltb, leb, ◌==◌, if◌then◌else◌, not,
  Bytes, codes, length, slice, take, be_value, ok, err,
}
use waychain_consensus.Hashing.{Sha256}
use waychain_consensus.Precompile.{
  Call, pure, ◌>>=◌, ◌>>◌, require, open_account, load, store, store_big, fill_bytes,
  precompile_addr_hex, storage_key, word, selector_bytes, read_slot, read_address,
}

pub data RegistryError : Type 0 where
  input_too_short : RegistryError
  amount_not_positive : RegistryError
  amount_too_large : RegistryError
  unknown_selector : ℕ → RegistryError

unfoldable pub registry_addr : Bytes
unfolding precompile_addr_hex
registry_addr = precompile_addr_hex 22

-- `writeUint64(0)` and `writeUint64(1)` as keys
unfoldable pub total_committed : Bytes
unfolding word
total_committed = word 0

unfoldable pub total_withdrawn : Bytes
unfolding word
total_withdrawn = word 1

-- The address in the first 20 bytes of the slot, and the other bytes as they were.
unfoldable pub with_owner : Bytes → ℕ → ℕ
with_owner target slot = be_value target * 2 ^ 96 + slot % 2 ^ 96

module _ ⦃h : Sha256⦄ where
  abbrev pub balance_key : Bytes → Bytes
  balance_key user = storage_key (16 ∷ user)

  abbrev pub utxo_key : Bytes → Bytes
  utxo_key utxo = storage_key (32 ∷ utxo)

  -- A slot as 32 bytes.
  unfoldable pub show_slot : Bytes → Call RegistryError Bytes
  show_slot key = do v ← load registry_addr key; fill_bytes v

  -- The credit of an accepted attestation: the user's balance, the owner of the output, the total.
  unfoldable pub credit : Bytes → Bytes → ℕ → Call RegistryError Bytes
  unfolding with_owner
  credit utxo target amount = do
    balance ← load registry_addr (balance_key target)
    store_big registry_addr (balance_key target) (balance + amount)
    owner ← load registry_addr (utxo_key utxo)
    store registry_addr (utxo_key utxo) (with_owner target owner)
    total ← load registry_addr total_committed
    store_big registry_addr total_committed (total + amount)
    pure (1 ∷ [])

  -- The check of the output, which reads the last eight bytes of its slot, and the credit.
  unfoldable pub credit_new : Bytes → Bytes → ℕ → Call RegistryError Bytes
  unfolding credit
  credit_new utxo target amount = do
    owner ← load registry_addr (utxo_key utxo)
    if owner % 2 ^ 64 == 0 then credit utxo target amount else pure (0 ∷ [])

  -- attestCommitment
  unfoldable pub attest_commitment : Bytes → Call RegistryError Bytes
  unfolding credit_new
  attest_commitment input = do
    require (leb 88 (length input)) input_too_short
    (if ltb (read_slot input 36) 10000
        then pure (0 ∷ [])
        else if ltb 100000000 (read_slot input 36)
        then pure (0 ∷ [])
        else credit_new (slice input 4 36) (read_address input 68) (read_slot input 36))

  -- requestWithdrawal, which takes from no balance
  unfoldable pub request_withdrawal : Bytes → Call RegistryError Bytes
  request_withdrawal input = do
    require (ltb 0 (read_slot input 4)) amount_not_positive
    require (leb (read_slot input 4) 1000000000) amount_too_large
    total ← load registry_addr total_withdrawn
    store_big registry_addr total_withdrawn (total + read_slot input 4)
    pure (h.sum256 (codes "withdrawal:" ++ take 100 input))

  unfoldable pub bitcoin_registry_precompile : Bytes → Call RegistryError Bytes
  unfolding show_slot attest_commitment request_withdrawal
  bitcoin_registry_precompile input = do
    open_account registry_addr
    (let sel = selector_bytes input in
        if sel == 0x2AFE5AE4
        then show_slot (balance_key (read_address input 4))
        else if sel == 0x3ABFEF65
        then show_slot total_committed
        else if sel == 0x4A77D80B
        then show_slot total_withdrawn
        else if sel == 0xF237C0C2
        then attest_commitment input
        else if sel == 0x1D772727
        then request_withdrawal input
        else λ s. (err (unknown_selector sel), s))
