-- ===== src/TrustlessLock/Tests.antt =====
-- Runs of the locks, and their theorems at concrete inputs.
use waychain_consensus.Prelude.{
  ℕ, ◌+◌, ◌%◌, ◌^◌, ◌≡◌, refl, true, arith, ltb, leb, ◌==◌, ◌&&◌, not, is_ok, if◌then◌else◌, Bytes,
  [], ◌∷◌, ◌++◌, length, slice, replicate, bytes_eq, lookup_or, insert, be_value, be_from, ◌∙◌, ap,
}
use waychain_consensus.Prelude.Decimal.{decimal}
use waychain_consensus.Hashing.{plain_digest}
use waychain_consensus.State.{StateDb, touch, add_log, new_state_db, account_at, put_account}
use waychain_consensus.State.Storage.{sload, sstore}
use waychain_consensus.Precompile.{
  be_bytes, read_slot, read_byte, storage_key, big_bytes, read_uint64,
}
use waychain_consensus.TrustlessLock.{
  lock_addr, trustless_lock_slot, lock_type_of, decode_unlock_block, encode_lock_header,
  encode_unlock_block, clear_lock_type, create_time_lock, create_multi_sig_lock,
  create_vesting_lock, count_lock, release, lock_type_time, releasable,
}
use waychain_consensus.TrustlessLock.Release.{
  lock_slot, releasable_at, release_exact, release_again,
}
use waychain_consensus.TrustlessLock.Creation.{
  minimum_period, time_lock_id, time_lock_header, create_time_lock_promise,
}

-- A pool's address, a lock of a kind that opens at block 100, and a state that holds it.
abbrev pub pool : Bytes
pool = replicate 20 7

abbrev lock_id : Bytes
lock_id = replicate 32 3

abbrev holding : ℕ → StateDb
holding kind =
    sstore lock_addr (storage_key (trustless_lock_slot lock_id))
      (encode_lock_header pool 5 kind pool 100 9) new_state_db

abbrev request : Bytes
request = 246 ∷ 167 ∷ 184 ∷ 201 ∷ lock_id

release_exact_example :
    (is_ok (release request [] 120 (holding lock_type_time)).0
      ≡ ltb 0 (releasable_at (slice request 4 36) 120 (holding lock_type_time)))
    × ((j : Bytes)
        → lock_slot j (release request [] 120 (holding lock_type_time)).1 ≡ (
            if ltb 0 (releasable_at (slice request 4 36) 120 (holding lock_type_time))
              && bytes_eq (trustless_lock_slot (slice request 4 36)) j
            then clear_lock_type
                (lock_slot (trustless_lock_slot (slice request 4 36)) (holding lock_type_time))
            else lock_slot j (holding lock_type_time)))
release_exact_example = release_exact request [] 120 (holding lock_type_time) (omega arith)

-- The release of this example pays.
releasable_test : releasable_at lock_id 120 (holding lock_type_time) ≡ 1
unfolding releasable_at releasable lock_slot sload sstore account_at put_account lookup_or insert
    bytes_eq lock_addr encode_lock_header encode_unlock_block be_value be_from read_byte
    lock_type_of decode_unlock_block
releasable_test = refl

time_lock_released : is_ok (release request [] 120 (holding lock_type_time)).0 ≡ true
time_lock_released = release_exact_example.0 ∙ ap (ltb 0) releasable_test

release_again_example :
    is_ok (release request [] 130 (release request [] 120 (holding lock_type_time)).1).0 ≡ (
      let header = lock_slot (trustless_lock_slot (slice request 4 36)) (holding lock_type_time) in
      not (clear_lock_type header == 0) && leb (decode_unlock_block header) 130)
release_again_example =
    release_again request [] [] 120 130 (holding lock_type_time) (omega arith) time_lock_released

abbrev extension : Bytes
extension = 167 ∷ 184 ∷ 201 ∷ 208 ∷ (lock_id ++ be_bytes 32 40)

-- A creation with the shortest period that the protocol allows.
abbrev creation : Bytes
creation =
    161 ∷ 178 ∷ 195 ∷ 212 ∷ (pool ++ pool ++ pool ++ be_bytes 32 5 ++ be_bytes 32 2592000 ++ pool)

create_time_lock_promise_example :
    (is_ok (create_time_lock creation [] 10 new_state_db).0
      ≡ (leb 148 (length creation) && leb (minimum_period new_state_db) (read_slot creation 96)))
    × (releasable_at
          (time_lock_id creation 10)
          2592010
          (create_time_lock creation [] 10 new_state_db).1
        ≡ (if leb 148 (length creation) && leb (minimum_period new_state_db) (read_slot creation 96)
            then (if time_lock_header creation 10 == 0
                then 0
                else if leb ((10 + read_slot creation 96) % 2 ^ 64) 2592010
                then 1
                else 0)
            else releasable_at (time_lock_id creation 10) 2592010 new_state_db))
unfolding lock_slot sload account_at lookup_or be_value be_from read_byte be_bytes
create_time_lock_promise_example =
    create_time_lock_promise creation [] 10 2592010 new_state_db (omega arith) (omega arith)
      (omega arith)

-- The creation of this example is accepted.
creation_test :
    (leb 148 (length creation) ≡ true)
    × (leb (minimum_period new_state_db) (read_slot creation 96) ≡ true)
unfolding minimum_period lock_slot sload account_at lookup_or be_value be_from be_bytes read_slot
creation_test = (refl, refl)

-- A lock that two signatures should open.
abbrev pub multi_creation : Bytes
multi_creation = 195 ∷ 212 ∷ 229 ∷ 246 ∷ (pool ++ pool ++ pool ++ be_bytes 32 5 ++ 2 ∷ pool)

-- A vesting lock on the same pool, tokens and amount in the same block takes its place, and is paid.
abbrev overwriting : Bytes
overwriting =
    178
    ∷ 195
    ∷ 212
    ∷ 229
    ∷ (pool
        ++ pool
        ++ pool
        ++ be_bytes 32 5
        ++ be_bytes 8 10
        ++ be_bytes 8 20
        ++ be_bytes 8 10
        ++ pool)

abbrev overwritten : StateDb
overwritten =
    (create_vesting_lock overwriting [] 10
      (create_multi_sig_lock multi_creation [] 10 new_state_db).1).1

overwritten_test : releasable_at (time_lock_id multi_creation 10) 20 overwritten ≡ 1
unfolding create_multi_sig_lock create_vesting_lock count_lock touch lock_addr sload releasable_at
    releasable lookup_or account_at be_bytes read_uint64 sstore insert bytes_eq add_log big_bytes
    read_slot decimal time_lock_id
overwritten_test = refl
