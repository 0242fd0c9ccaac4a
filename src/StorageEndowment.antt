-- ===== src/StorageEndowment.antt =====
-- evm/precompiles.go, the operators of the storage endowment (precompile 0x17). An operator is one
-- slot: the flag, the block of the registration, and 23 bytes of the stake.
pub mod Registering
mod Tests
use waychain_consensus.Prelude.{
  ℕ, zero, suc, ◌+◌, ◌*◌, ◌/◌, ◌%◌, ◌-◌, ◌^◌, Bool, true, false, ◌&&◌, not, [], ◌∷◌, ◌++◌, ltb, leb,
  ◌==◌, if◌then◌else◌, Bytes, codes, length, slice, be_value, ok, err, panic, Option, none, some,
}
use waychain_consensus.Hashing.{Sha256}
use waychain_consensus.Precompile.{
  Call, pure, ◌>>=◌, ◌>>◌, open_account, load, store, emit, fill_bytes, precompile_addr_hex,
  storage_key, word, be_bytes, selector_bytes, read_slot, read_address, read_byte,
}
use waychain_consensus.Serialize.Numbers.{number_bytes}

pub data EndowmentError : Type 0 where
  unknown_selector : ℕ → EndowmentError

unfoldable pub endowment_addr : Bytes
unfolding precompile_addr_hex
endowment_addr = precompile_addr_hex 23

-- `writeUint64(0)` and `writeUint64(2)` as keys, which are not hashed
unfoldable pub operator_count : Bytes
unfolding word
operator_count = word 0

unfoldable pub start_time : Bytes
unfolding word
start_time = word 2

-- Bytes 0 and 1 of an operator's slot.
unfoldable pub active_byte : ℕ → ℕ
active_byte slot = slot / 2 ^ 248 % 256

unfoldable pub second_byte : ℕ → ℕ
second_byte slot = slot / 2 ^ 240 % 256

-- A new operator: the flag, the block, and the last 23 bytes of the stake.
unfoldable pub new_operator : ℕ → ℕ → ℕ
new_operator stake block = 2 ^ 248 + block * 2 ^ 184 + stake % 2 ^ 184

-- `readUint64`
unfoldable pub low_uint64 : ℕ → ℕ
low_uint64 slot = slot % 2 ^ 64

-- The 20 bytes that stand for the caller: the start of its text, behind `0x`. A shorter text is a
-- slice out of bounds.
unfoldable pub caller_address : Bytes → Call EndowmentError Bytes
unfolding read_byte
caller_address caller s =
    let start =
      if leb 4 (length caller) && (read_byte caller 0 == 48) && (read_byte caller 1 == 120)
      then 2
      else 0 in
    (if leb (start + 20) (length caller) then ok (slice caller start (start + 20)) else panic, s)

-- 2 years, in blocks of a second
abbrev pub halving_interval : ℕ
halving_interval = 2 * 365 * 86400

-- The loop of calculateEpochAllocation.
unfoldable pub halve : ℕ → ℕ → ℕ
halve zero base = base
halve (suc n) base = halve n (base / 2)

module _ ⦃h : Sha256⦄ where
  abbrev pub operator_key : Bytes → Bytes
  operator_key who = storage_key (16 ∷ who)

  unfoldable pub list_key : ℕ → Bytes
  unfolding number_bytes
  list_key i = storage_key (32 ∷ number_bytes i)

  -- The writes of registerOperator.
  unfoldable pub write_operator : Bytes → Bytes → ℕ → ℕ → Call EndowmentError (Bytes × Option ℕ)
  unfolding low_uint64 new_operator list_key
  write_operator caller who stake block = do
    count ← load endowment_addr operator_count
    (let next = (low_uint64 count + 1) % 2 ^ 64 in
        do
          store endowment_addr operator_count next
          store endowment_addr (operator_key who) (new_operator stake block)
          store endowment_addr (list_key ((next + 2 ^ 64 - 1) % 2 ^ 64)) (be_value who * 2 ^ 96)
          emit endowment_addr (storage_key (codes "OperatorRegistered") ∷ []) caller block
          pure (1 ∷ [], some (stake % 2 ^ 64)))

  -- registerOperator. The second result is what `EconoAccrueStorage` is called with.
  unfoldable pub register_operator : Bytes → Bytes → ℕ → Call EndowmentError (Bytes × Option ℕ)
  unfolding caller_address write_operator active_byte second_byte
  register_operator input caller block = if read_slot input 4 == 0 then pure (0 ∷ [], none) else do
    who ← caller_address caller
    existing ← load endowment_addr (operator_key who)
    (if (active_byte existing == 1) && not (second_byte existing == 0)
        then pure (0 ∷ [], none)
        else write_operator caller who (read_slot input 4) block)

  -- unregisterOperator
  unfoldable pub unregister_operator : Bytes → Call EndowmentError Bytes
  unfolding caller_address active_byte
  unregister_operator caller = do
    who ← caller_address caller
    slot ← load endowment_addr (operator_key who)
    (if active_byte slot == 1
        then store endowment_addr (operator_key who) (slot % 2 ^ 248) >> pure (1 ∷ [])
        else pure (0 ∷ []))

  -- getOperatorInfo: the slot without its last byte
  unfoldable pub get_operator_info : Bytes → Call EndowmentError Bytes
  get_operator_info input = do
    slot ← load endowment_addr (operator_key (read_address input 4))
    pure (if slot == 0 then [] else be_bytes 32 (slot / 256 * 256))

  -- `(blockNum - startTime) / halvingInterval` in 64 bits
  unfoldable pub epoch_since : ℕ → ℕ → ℕ
  epoch_since start block = (block + 2 ^ 64 - start) % 2 ^ 64 / halving_interval

  -- getCurrentEpoch, which sets the start when it is first asked
  unfoldable pub get_current_epoch : ℕ → Call EndowmentError Bytes
  unfolding low_uint64 epoch_since
  get_current_epoch block = do
    start ← load endowment_addr start_time
    (if low_uint64 start == 0
        then store endowment_addr start_time block >> pure (be_bytes 8 (epoch_since block block))
        else pure (be_bytes 8 (epoch_since (low_uint64 start) block)))

  -- calculateEpochAllocation
  unfoldable pub calculate_epoch_allocation : ℕ → Call EndowmentError Bytes
  unfolding low_uint64 epoch_since halve
  calculate_epoch_allocation block = do
    start ← load endowment_addr start_time
    (let epoch = epoch_since (if low_uint64 start == 0 then block else low_uint64 start) block in
        pure (be_bytes 32 (if leb 10 epoch then 0 else halve epoch (10000000 * 10 ^ 18))))

  -- submitProof, which looks for the operator under the whole text of the caller
  unfoldable pub submit_proof : Bytes → Bytes → ℕ → Call EndowmentError Bytes
  unfolding active_byte
  submit_proof input caller block = do
    slot ← load endowment_addr (operator_key caller)
    (if not (active_byte slot == 1) then pure (0 ∷ []) else do
      hash ← file_hash
      store endowment_addr (storage_key (48 ∷ (caller ++ hash))) (block * 2 ^ 192)
      pure (1 ∷ []))
    where
      -- `input[4:36]`
      file_hash : Call EndowmentError Bytes
      file_hash s = (if leb 36 (length input) then ok (slice input 4 36) else panic, s)

  -- The addresses of the list from an index on.
  unfoldable pub listed_from : ℕ → ℕ → Call EndowmentError Bytes
  unfolding list_key
  listed_from zero i = pure []
  listed_from (suc n) i = do
    slot ← load endowment_addr (list_key i)
    rest ← listed_from n (i + 1)
    pure (be_bytes 20 (slot / 2 ^ 96) ++ rest)

  -- getOperators: at most 50
  unfoldable pub get_operators : Call EndowmentError Bytes
  unfolding listed_from low_uint64
  get_operators = do
    count ← load endowment_addr operator_count
    listed_from (if ltb 50 (low_uint64 count) then 50 else low_uint64 count) 0

  abbrev without_accrual : Call EndowmentError Bytes → Call EndowmentError (Bytes × Option ℕ)
  without_accrual call = call >>= λ out. pure (out, none)

  unfoldable pub storage_endowment_precompile :
      Bytes → Bytes → ℕ → Call EndowmentError (Bytes × Option ℕ)
  unfolding register_operator unregister_operator get_operator_info get_current_epoch
      calculate_epoch_allocation submit_proof get_operators low_uint64
  storage_endowment_precompile input caller block = do
    open_account endowment_addr
    (let sel = selector_bytes input in
        if sel == 0x13E4F0A2
        then register_operator input caller block
        else if sel == 0x24B5D1C3
        then without_accrual (unregister_operator caller)
        else if sel == 0x35C6E2D4
        then without_accrual (get_operator_info input)
        else if sel == 0xA8A012F7
        then without_accrual
            (load endowment_addr operator_count >>= λ count. pure (be_bytes 8 (low_uint64 count)))
        else if sel == 0xC5BAF020
        then without_accrual (get_current_epoch block)
        else if sel == 0xA7559A16
        then without_accrual (calculate_epoch_allocation block)
        else if sel == 0xE4E68365
        then without_accrual (submit_proof input caller block)
        else if sel == 0x2D2DC686
        then without_accrual get_operators
        else λ s. (err (unknown_selector sel), s))
