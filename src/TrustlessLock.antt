-- ===== src/TrustlessLock.antt =====
-- evm/trustless_lock.go: time, vesting and multi-signature locks on liquidity (precompile 0x1A).
-- A slot is the number that its 32 bytes spell, so a field of bytes a..b is a range of its digits.
pub mod Encoding
pub mod Release
pub mod Creation
pub mod Extension
pub mod Header
pub mod MultiSig
mod Tests
mod MultiSigTests
use waychain_consensus.Prelude.{
  ℕ, ◌+◌, ◌*◌, ◌/◌, ◌%◌, ◌-◌, ◌^◌, Bool, true, false, List, [], ◌∷◌, ◌++◌, ok, err, ltb, leb, ◌==◌,
  if◌then◌else◌, not, Bytes, codes, length, slice, replicate, be_value,
}
use waychain_consensus.Prelude.Decimal.{decimal}
use waychain_consensus.Hashing.{Sha256}
use waychain_consensus.Precompile.{
  Call, pure, ◌>>=◌, ◌>>◌, require, open_account, load, store, store_big, emit, fill_bytes,
  read_byte, precompile_addr_hex, storage_key, word, be_bytes, big_bytes, bool_result,
  selector_bytes, read_slot, read_uint64,
}

pub data LockError : Type 0 where
  input_too_short : LockError
  time_lock_too_short : LockError
  period_below_minimum : ℕ → ℕ → LockError
  vesting_lock_too_short : LockError
  end_not_after_start : LockError
  multi_sig_lock_too_short : LockError
  threshold_zero : LockError
  get_lock_too_short : LockError
  lock_not_found : LockError
  releasable_amount_too_short : LockError
  release_too_short : LockError
  nothing_to_release : LockError
  extend_too_short : LockError
  no_additional_blocks : LockError
  not_a_time_lock : LockError
  unknown_selector : ℕ → LockError

abbrev pub lock_type_time : ℕ
lock_type_time = 0

abbrev pub lock_type_vesting : ℕ
lock_type_vesting = 1

abbrev pub lock_type_multi_sig : ℕ
lock_type_multi_sig = 2

unfoldable pub lock_addr : Bytes
unfolding precompile_addr_hex
lock_addr = precompile_addr_hex 26

-- The hashed text of each key.
abbrev pub trustless_lock_slot : Bytes → Bytes
trustless_lock_slot lock_id = 1 ∷ lock_id

abbrev pub vesting_data_slot : Bytes → Bytes
vesting_data_slot lock_id = 4 ∷ lock_id

abbrev pub lock_count : Bytes
lock_count = codes "lockCount"

-- Byte 0, and bytes 1 to 8.
unfoldable pub lock_type_of : ℕ → ℕ
lock_type_of slot = slot / 2 ^ 248 % 256

-- `decodeUnlockBlock`
unfoldable pub decode_unlock_block : ℕ → ℕ
decode_unlock_block slot = slot / 2 ^ 184 % 2 ^ 64

-- `encodeUnlockBlock`
unfoldable pub encode_unlock_block : ℕ → ℕ → ℕ
encode_unlock_block slot val = slot / 2 ^ 248 * 2 ^ 248 + val % 2 ^ 64 * 2 ^ 184 + slot % 2 ^ 184

-- `encodeLockHeader`: the type, the unlock block, the pool's 20 bytes, the recipient's last byte, and
-- two bytes of the creation block. The amount is not stored.
unfoldable pub encode_lock_header : Bytes → ℕ → ℕ → Bytes → ℕ → ℕ → ℕ
unfolding encode_unlock_block be_value read_byte
encode_lock_header pool amount lock_type recipient unlock created =
    encode_unlock_block (lock_type * 2 ^ 248) unlock
    + be_value pool * 2 ^ 24
    + read_byte recipient 19 * 2 ^ 16
    + created % 2 ^ 16

-- `encodeVestingData`, `decodeVestingEnd` and `decodeVestingCliff`
unfoldable pub encode_vesting_data : ℕ → ℕ → ℕ
encode_vesting_data end_block cliff = end_block % 2 ^ 64 * 2 ^ 192 + cliff % 2 ^ 64 * 2 ^ 128

unfoldable pub decode_vesting_end : ℕ → ℕ
decode_vesting_end slot = slot / 2 ^ 192 % 2 ^ 64

unfoldable pub decode_vesting_cliff : ℕ → ℕ
decode_vesting_cliff slot = slot / 2 ^ 128 % 2 ^ 64

-- `headerSlot[0] = 0`
unfoldable pub clear_lock_type : ℕ → ℕ
clear_lock_type slot = slot % 2 ^ 248

-- The thousandths that have vested, as `big.NewInt(int64(elapsed * 1000 / total))` and its bytes give
-- them: without sign, after 64-bit arithmetic.
unfoldable pub vested_part : ℕ → ℕ → ℕ → ℕ
vested_part start end_block block =
    let elapsed = (block + 2 ^ 64 - start) % 2 ^ 64 in
    let total = (end_block + 2 ^ 64 - start) % 2 ^ 64 in
    let part = elapsed * 1000 % 2 ^ 64 / total in
    if total == 0 then 0 else if ltb part (2 ^ 63) then part else 2 ^ 64 - part

-- The switch of `trustlessReleasableAmount`
unfoldable pub releasable : ℕ → ℕ → ℕ → ℕ
unfolding lock_type_of decode_unlock_block decode_vesting_end decode_vesting_cliff vested_part
releasable header vesting block =
    if header == 0
    then 0
    else if lock_type_of header == lock_type_time
    then (if leb (decode_unlock_block header) block then 1 else 0)
    else if lock_type_of header == lock_type_vesting
    then (if leb (decode_vesting_end vesting) block
        then 1
        else if leb (decode_vesting_cliff vesting) block
        then vested_part (decode_unlock_block header) (decode_vesting_end vesting) block
        else 0)
    else 0

module _ ⦃h : Sha256⦄ where
  -- `generateLockID`
  unfoldable pub generate_lock_id : Bytes → Bytes → Bytes → ℕ → ℕ → Bytes
  generate_lock_id pool token0 token1 amount block =
      h.sum256 (pool ++ token0 ++ token1 ++ big_bytes amount ++ decimal block)

  -- `getTrustlessParam`
  unfoldable pub get_trustless_param : Bytes → ℕ → Call LockError ℕ
  get_trustless_param key fallback = do
    open_account lock_addr
    val ← load lock_addr (storage_key (codes "param:" ++ key))
    pure (if val == 0 then fallback else val)

  -- What the three creations end with: the count and the log.
  unfoldable pub count_lock : Bytes → Bytes → ℕ → ℕ → Call LockError Bytes
  count_lock event lock_id amount block = do
    count ← load lock_addr (storage_key lock_count)
    store_big lock_addr (storage_key lock_count) (count + 1)
    emit lock_addr (storage_key event ∷ lock_id ∷ []) (big_bytes amount) block
    pure lock_id

  -- `trustlessCreateTimeLock`
  unfoldable pub create_time_lock : Bytes → Bytes → ℕ → Call LockError Bytes
  unfolding get_trustless_param count_lock generate_lock_id encode_lock_header
  create_time_lock input caller block = do
    let pool = slice input 4 24
    let amount = read_slot input 64
    let period = read_slot input 96
    let lock_id = generate_lock_id pool (slice input 24 44) (slice input 44 64) amount block
    let unlock = (block + period) % 2 ^ 64
    require (leb 148 (length input)) time_lock_too_short
    minimum ← get_trustless_param (codes "minLockPeriod") 2592000
    require (leb minimum period) (period_below_minimum period minimum)
    open_account lock_addr
    store lock_addr (storage_key (trustless_lock_slot lock_id))
        (encode_lock_header pool amount lock_type_time (slice input 128 148) unlock block)
    count_lock (codes "TimeLockCreated") lock_id amount block

  -- `trustlessCreateVestingLock`
  unfoldable pub create_vesting_lock : Bytes → Bytes → ℕ → Call LockError Bytes
  unfolding count_lock generate_lock_id encode_lock_header encode_vesting_data
  create_vesting_lock input caller block = do
    let pool = slice input 4 24
    let amount = read_slot input 64
    let start = read_uint64 input 96
    let end_block = read_uint64 input 104
    let lock_id = generate_lock_id pool (slice input 24 44) (slice input 44 64) amount block
    require (leb 140 (length input)) vesting_lock_too_short
    require (ltb start end_block) end_not_after_start
    open_account lock_addr
    store lock_addr (storage_key (trustless_lock_slot lock_id))
        (encode_lock_header pool amount lock_type_vesting (slice input 120 140) start block)
    store lock_addr (storage_key (vesting_data_slot lock_id))
        (encode_vesting_data end_block (read_uint64 input 112))
    count_lock (codes "VestingLockCreated") lock_id amount block

  -- `trustlessCreateMultiSigLock`
  unfoldable pub create_multi_sig_lock : Bytes → Bytes → ℕ → Call LockError Bytes
  unfolding count_lock generate_lock_id encode_lock_header read_byte
  create_multi_sig_lock input caller block = do
    let pool = slice input 4 24
    let amount = read_slot input 64
    let threshold = read_byte input 96
    let lock_id = generate_lock_id pool (slice input 24 44) (slice input 44 64) amount block
    require (leb 117 (length input)) multi_sig_lock_too_short
    require (not (threshold == 0)) threshold_zero
    open_account lock_addr
    store lock_addr (storage_key (trustless_lock_slot lock_id))
        (encode_lock_header pool amount lock_type_multi_sig (slice input 97 117) threshold block)
    count_lock (codes "MultiSigLockCreated") lock_id amount block

  -- `trustlessGetLock`
  unfoldable pub get_lock : Bytes → Bytes → Call LockError Bytes
  unfolding lock_type_of decode_unlock_block be_bytes
  get_lock input caller = do
    require (leb 36 (length input)) get_lock_too_short
    open_account lock_addr
    header ← load lock_addr (storage_key (trustless_lock_slot (slice input 4 36)))
    require (not (header == 0)) lock_not_found
    pure (lock_type_of header ∷ be_bytes 8 (decode_unlock_block header) ++ replicate 32 0 ++ 1 ∷ [])

  -- `trustlessReleasableAmount`
  unfoldable pub releasable_amount : Bytes → Bytes → ℕ → Call LockError Bytes
  unfolding releasable
  releasable_amount input caller block = do
    let lock_id = slice input 4 36
    require (leb 36 (length input)) releasable_amount_too_short
    open_account lock_addr
    header ← load lock_addr (storage_key (trustless_lock_slot lock_id))
    vesting ← load lock_addr (storage_key (vesting_data_slot lock_id))
    fill_bytes (releasable header vesting block)

  -- `trustlessRelease`, past the guards
  unfoldable pub mark_released : Bytes → ℕ → ℕ → Call LockError Bytes
  unfolding clear_lock_type
  mark_released lock_id amount block = do
    open_account lock_addr
    header ← load lock_addr (storage_key (trustless_lock_slot lock_id))
    store lock_addr (storage_key (trustless_lock_slot lock_id)) (clear_lock_type header)
    emit lock_addr (storage_key (codes "LockReleased") ∷ lock_id ∷ []) (big_bytes amount) block
    fill_bytes amount

  -- `trustlessRelease`
  unfoldable pub release : Bytes → Bytes → ℕ → Call LockError Bytes
  unfolding releasable_amount mark_released
  release input caller block = do
    let lock_id = slice input 4 36
    require (leb 36 (length input)) release_too_short
    out ← releasable_amount (229 ∷ 246 ∷ 167 ∷ 184 ∷ lock_id) caller block
    require (ltb 0 (read_slot out 0)) nothing_to_release
    mark_released lock_id (read_slot out 0) block

  -- `trustlessExtend`
  unfoldable pub extend : Bytes → Bytes → ℕ → Call LockError Bytes
  unfolding lock_type_of decode_unlock_block encode_unlock_block
  extend input caller block = do
    let lock_id = slice input 4 36
    let additional = read_slot input 36
    require (leb 68 (length input)) extend_too_short
    require (ltb 0 additional) no_additional_blocks
    open_account lock_addr
    header ← load lock_addr (storage_key (trustless_lock_slot lock_id))
    require (lock_type_of header == lock_type_time) not_a_time_lock
    store lock_addr (storage_key (trustless_lock_slot lock_id))
        (encode_unlock_block header (decode_unlock_block header + additional))
    emit lock_addr (storage_key (codes "LockExtended") ∷ lock_id ∷ []) (big_bytes additional) block
    pure (bool_result true)

  -- `trustlessLockPrecompile`
  unfoldable pub trustless_lock_precompile : Bytes → Bytes → ℕ → Call LockError Bytes
  unfolding create_time_lock create_vesting_lock create_multi_sig_lock get_lock releasable_amount
      release extend
  trustless_lock_precompile input caller block =
      let sel = selector_bytes input in
      if ltb (length input) 4
      then (λ s. (err input_too_short, s))
      else if sel == 2712847316
      then create_time_lock input caller block
      else if sel == 2999178469
      then create_vesting_lock input caller block
      else if sel == 3285509622
      then create_multi_sig_lock input caller block
      else if sel == 3571840679
      then get_lock input caller
      else if sel == 3858147256
      then releasable_amount input caller block
      else if sel == 4138186953
      then release input caller block
      else if sel == 2813905360
      then extend input caller block
      else (λ s. (err (unknown_selector sel), s))
