-- ===== src/TrustlessLock/Encoding.antt =====
-- The fields of a lock's slots: what encoding and decoding do to each other.
use waychain_consensus.Prelude.{ℕ, ◌%◌, ◌^◌, ◌<◌, ◌≡◌, Bytes, be_value, arith}
use waychain_consensus.Precompile.{read_byte}
use waychain_consensus.TrustlessLock.{
  lock_type_of, decode_unlock_block, encode_unlock_block, encode_lock_header, encode_vesting_data,
  decode_vesting_end, decode_vesting_cliff, clear_lock_type,
}

module _ (slot val : ℕ) where
  pub decode-encode_unlock_block :
      slot < 2 ^ 256
      → (decode_unlock_block (encode_unlock_block slot val) ≡ val % 2 ^ 64)
        × (lock_type_of (encode_unlock_block slot val) ≡ lock_type_of slot)
        × (encode_unlock_block slot val % 2 ^ 184 ≡ slot % 2 ^ 184)
  unfolding decode_unlock_block encode_unlock_block lock_type_of
  decode-encode_unlock_block h = (omega arith, omega arith, omega arith)

pub clear_lock_type-fields :
    (slot : ℕ)
    → (lock_type_of (clear_lock_type slot) ≡ 0)
      × (decode_unlock_block (clear_lock_type slot) ≡ decode_unlock_block slot)
unfolding decode_unlock_block clear_lock_type lock_type_of
clear_lock_type-fields slot = (omega arith, omega arith)

pub decode-encode_vesting_data :
    (end_block cliff : ℕ)
    → (decode_vesting_end (encode_vesting_data end_block cliff) ≡ end_block % 2 ^ 64)
      × (decode_vesting_cliff (encode_vesting_data end_block cliff) ≡ cliff % 2 ^ 64)
unfolding decode_vesting_end decode_vesting_cliff encode_vesting_data
decode-encode_vesting_data end_block cliff = (omega arith, omega arith)

module _ (pool : Bytes) (amount kind : ℕ) (recipient : Bytes) (unlock created : ℕ) where
  pub decode-encode_lock_header :
      be_value pool < 2 ^ 160
      → read_byte recipient 19 < 256
      → kind < 256
      → (lock_type_of (encode_lock_header pool amount kind recipient unlock created) ≡ kind)
        × (decode_unlock_block (encode_lock_header pool amount kind recipient unlock created)
            ≡ unlock % 2 ^ 64)
  unfolding decode_unlock_block encode_unlock_block lock_type_of encode_lock_header
  decode-encode_lock_header hp hr hk = (omega arith, omega arith)
