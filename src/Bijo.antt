-- ===== src/Bijo.antt =====
-- evm/precompiles.go, the BIJO token (precompile 0x14). Its balances and allowances are read; no
-- operation writes one.
use waychain_consensus.Prelude.{
  ℕ, ◌*◌, ◌%◌, ◌^◌, not, [], ◌∷◌, ◌++◌, ◌==◌, if◌then◌else◌, Bytes, err,
}
use waychain_consensus.Hashing.{Sha256}
use waychain_consensus.Precompile.{
  Call, pure, ◌>>=◌, ◌>>◌, open_account, load, store, fill_bytes, precompile_addr_hex, storage_key,
  word, selector_bytes, read_address,
}

pub data TokenError : Type 0 where
  needs_caller_context : TokenError
  unknown_selector : ℕ → TokenError

unfoldable pub token_addr : Bytes
unfolding precompile_addr_hex
token_addr = precompile_addr_hex 20

-- `BijoSupply`
abbrev pub bijo_supply : ℕ
bijo_supply = 369000000 * 10 ^ 18

-- `writeUint64(0)` and `writeUint64(1)` as keys, which are not hashed
unfoldable pub supply_key : Bytes
unfolding word
supply_key = word 0

unfoldable pub transfers_key : Bytes
unfolding word
transfers_key = word 1

module _ ⦃h : Sha256⦄ where
  -- A slot as 32 bytes.
  unfoldable pub show_slot : Bytes → Call TokenError Bytes
  show_slot key = do v ← load token_addr key; fill_bytes v

  -- totalSupply, which is the whole supply before anything is stored
  unfoldable pub total_supply : Call TokenError Bytes
  total_supply = do
    supply ← load token_addr supply_key
    fill_bytes (if supply == 0 then bijo_supply else supply)

  -- enableTransfers, whoever calls
  unfoldable pub enable_transfers : Call TokenError Bytes
  enable_transfers = do
    flag ← load token_addr transfers_key
    (if not (flag % 2 ^ 64 == 0)
        then pure (0 ∷ [])
        else store token_addr transfers_key 1 >> pure (1 ∷ []))

  unfoldable pub bijo_precompile : Bytes → Call TokenError Bytes
  unfolding show_slot total_supply enable_transfers
  bijo_precompile input = do
    open_account token_addr
    (let sel = selector_bytes input in
        if sel == 0x5B46F8F6
        then show_slot (storage_key (16 ∷ read_address input 4))
        else if sel == 0xA368022E
        then total_supply
        else if sel == 0x3B88EF57
        then (λ s. (err needs_caller_context, s))
        else if sel == 0x9F0BB8A9
        then (λ s. (err needs_caller_context, s))
        else if sel == 0x4B6685E7
        then (λ s. (err needs_caller_context, s))
        else if sel == 0xD864B7CA
        then show_slot (storage_key (32 ∷ (read_address input 4 ++ read_address input 24)))
        else if sel == 0xAD478CDA
        then enable_transfers
        else if sel == 0x2F30833B
        then (load token_addr transfers_key >>= λ flag.
            pure ((if flag % 2 ^ 64 == 0 then 0 else 1) ∷ []))
        else λ s. (err (unknown_selector sel), s))
