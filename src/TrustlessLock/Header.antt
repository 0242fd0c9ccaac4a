-- ===== src/TrustlessLock/Header.antt =====
-- What the operations of evm/trustless_lock.go do to the header of a lock that they are not about.
use waychain_consensus.Prelude.{
  ℕ, ◌<◌, ◌&&◌, is_ok, ◌+◌, ◌%◌, ◌^◌, ◌∙◌, err, ◌≡◌, refl, Bool, true, false, List, [], ◌∷◌, arith,
  leb, ◌==◌, not, if◌then◌else◌, Bytes, codes, length, slice, bytes_eq,
}
use waychain_consensus.Hashing.{Sha256}
use waychain_consensus.State.{StateDb, touch, add_log}
use waychain_consensus.State.Storage.{sload-touch, sload, sstore, sload-add_log}
use waychain_consensus.Precompile.{
  Call, ◌>>◌, require, open_account, store, storage_key, big_bytes, read_slot, read_byte,
  read_uint64,
}
use waychain_consensus.Precompile.Laws.{sload-sstore_hashed}
use waychain_consensus.TrustlessLock.{
  LockError, lock_addr, lock_count, trustless_lock_slot, vesting_data_slot, lock_type_time,
  lock_type_vesting, lock_type_multi_sig, encode_lock_header, encode_vesting_data, create_time_lock,
  create_vesting_lock, create_multi_sig_lock, get_trustless_param, count_lock, get_lock,
  releasable_amount, threshold_zero, multi_sig_lock_too_short,
}
use waychain_consensus.TrustlessLock.Release.{slot-touch, lock_slot}
use waychain_consensus.TrustlessLock.Creation.{time_lock_id, count_lock-is_ok}

-- Two early returns before the rest of a call.
guards :
    (short zero : Bool) (e e' : LockError) (m : Call LockError Bytes) (s : StateDb)
    → (require short e >> (require (not zero) e' >> m)) s
      ≡ (if short then (if zero then (err e', s) else m s) else (err e, s))
guards false zero e e' m s = refl
guards true false e e' m s = refl
guards true true e e' m s = refl

module _ ⦃h : Sha256⦄ where
  -- What the creation of a multi-signature lock comes to.
  module _ (input caller : Bytes) (block : ℕ) (s : StateDb) where
    abbrev pub multi_header : ℕ
    multi_header =
        encode_lock_header (slice input 4 24) (read_slot input 64) lock_type_multi_sig
          (slice input 97 117) (read_byte input 96) block

    abbrev pub multi_headed : StateDb
    multi_headed =
        sstore lock_addr (storage_key (trustless_lock_slot (time_lock_id input block)))
          (encode_lock_header (slice input 4 24) (read_slot input 64) lock_type_multi_sig
            (slice input 97 117) (read_byte input 96) block)
          (touch lock_addr s)

    pub create_multi_sig_lock_exact : create_multi_sig_lock input caller block s ≡ (
        if leb 117 (length input)
        then (if read_byte input 96 == 0
            then (err threshold_zero, s)
            else count_lock
                (codes "MultiSigLockCreated")
                (time_lock_id input block)
                (read_slot input 64)
                block
                multi_headed)
        else (err multi_sig_lock_too_short, s))
    unfolding create_multi_sig_lock time_lock_id
    create_multi_sig_lock_exact =
        guards (leb 117 (length input)) (read_byte input 96 == 0) multi_sig_lock_too_short
          threshold_zero
          (open_account lock_addr
            >> (store lock_addr (storage_key (trustless_lock_slot (time_lock_id input block))) (
                  encode_lock_header (slice input 4 24) (read_slot input 64) lock_type_multi_sig
                    (slice input 97 117) (read_byte input 96) block)
                >> count_lock (codes "MultiSigLockCreated") (time_lock_id input block)
                    (read_slot input 64) block))
          s

    count-multi_headed : lock_slot lock_count multi_headed ≡ lock_slot lock_count s
    unfolding lock_slot bytes_eq
    count-multi_headed =
        sload-sstore_hashed lock_addr lock_count (trustless_lock_slot (time_lock_id input block))
          multi_header (touch lock_addr s)
        ∙ sload-touch lock_addr (storage_key lock_count) lock_addr s

    counted-is_ok :
        lock_slot lock_count s + 1 < 2 ^ 256
        → is_ok
            (count_lock
              (codes "MultiSigLockCreated")
              (time_lock_id input block)
              (read_slot input 64)
              block
              multi_headed).0
          ≡ true
    counted-is_ok room =
        count_lock-is_ok (codes "MultiSigLockCreated") (time_lock_id input block)
          (read_slot input 64) block multi_headed (omega (arith, room, count-multi_headed))

    pub create_multi_sig_lock-is_ok :
        lock_slot lock_count s + 1 < 2 ^ 256
        → is_ok (create_multi_sig_lock input caller block s).0
          ≡ (leb 117 (length input) && not (read_byte input 96 == 0))
    create_multi_sig_lock-is_ok room =
        ground (arith, create_multi_sig_lock_exact, counted-is_ok room)

  -- What the operations do to the header of a lock.
  module _ (lock_id : Bytes) where
    unfoldable pub header : StateDb → ℕ
    unfolding lock_slot
    header s = lock_slot (trustless_lock_slot lock_id) s

    pub header-touch : (s : StateDb) → header (touch lock_addr s) ≡ header s
    unfolding header
    header-touch s = slot-touch (trustless_lock_slot lock_id) s

    pub header-store :
        (j : Bytes) (v : ℕ) (s : StateDb)
        → header (sstore lock_addr (storage_key j) v s)
          ≡ (if bytes_eq j (trustless_lock_slot lock_id) then v else header s)
    unfolding header lock_slot
    header-store j v s = sload-sstore_hashed lock_addr (trustless_lock_slot lock_id) j v s

    pub header-add_log :
        (topics : List Bytes) (payload : Bytes) (block : ℕ) (s : StateDb)
        → header (add_log lock_addr topics payload block s) ≡ header s
    unfolding header lock_slot
    header-add_log topics payload block s =
        sload-add_log lock_addr (storage_key (trustless_lock_slot lock_id)) lock_addr topics payload
          block s

    -- A write to the slot of another key.
    header-other :
        (j : Bytes) (v : ℕ) (s : StateDb)
        → bytes_eq j (trustless_lock_slot lock_id) ≡ false
        → header (sstore lock_addr (storage_key j) v s) ≡ header s
    header-other j v s other = ground (arith, other, header-store j v s)

    pub header-count_lock :
        (event new : Bytes) (amount block : ℕ) (s : StateDb)
        → header (count_lock event new amount block s).1 ≡ header s
    unfolding count_lock bytes_eq
    header-count_lock event new amount block s = ground (
      arith,
      header-other lock_count (sload lock_addr (storage_key lock_count) s + 1) s refl,
      header-add_log (storage_key event ∷ new ∷ []) (big_bytes amount) block (
          sstore lock_addr (storage_key lock_count) (sload lock_addr (storage_key lock_count) s + 1)
            s),
    )

    module _ (input caller : Bytes) (block : ℕ) (s : StateDb)
        (other : bytes_eq (time_lock_id input block) lock_id ≡ false) where
      -- A header that is written for another identifier.
      header-written :
          (v : ℕ) (s : StateDb)
          → header
              (sstore lock_addr (storage_key (trustless_lock_slot (time_lock_id input block))) v s)
            ≡ header s
      unfolding bytes_eq
      header-written v s = header-other (trustless_lock_slot (time_lock_id input block)) v s other

      header-created :
          (event : Bytes) (v : ℕ) (s : StateDb)
          → header
              (count_lock event (time_lock_id input block) (read_slot input 64) block (
                sstore lock_addr
                  (storage_key (trustless_lock_slot (time_lock_id input block)))
                  v
                  (touch lock_addr s))).1
            ≡ header s
      header-created event v s =
          header-count_lock _ _ _ _ _ ∙ header-written v (touch lock_addr s) ∙ header-touch s

      pub header-create_time_lock : header (create_time_lock input caller block s).1 ≡ header s
      unfolding create_time_lock time_lock_id get_trustless_param
      header-create_time_lock = ground (
        arith,
        header-touch s,
        header-created (codes "TimeLockCreated")
            (encode_lock_header (slice input 4 24) (read_slot input 64) lock_type_time
              (slice input 128 148) ((block + read_slot input 96) % 2 ^ 64) block)
            (touch lock_addr s),
      )

      abbrev written : StateDb
      written =
          sstore lock_addr (storage_key (trustless_lock_slot (time_lock_id input block)))
            (encode_lock_header (slice input 4 24) (read_slot input 64) lock_type_vesting
              (slice input 120 140) (read_uint64 input 96) block)
            (touch lock_addr s)

      pub header-create_vesting_lock :
          header (create_vesting_lock input caller block s).1 ≡ header s
      unfolding create_vesting_lock time_lock_id bytes_eq
      header-create_vesting_lock = ground (
        arith,
        header-touch s,
        header-count_lock (codes "VestingLockCreated") (time_lock_id input block)
              (read_slot input 64) block
              (sstore lock_addr (storage_key (vesting_data_slot (time_lock_id input block)))
                (encode_vesting_data (read_uint64 input 104) (read_uint64 input 112)) written)
            ∙ header-other (vesting_data_slot (time_lock_id input block))
                (encode_vesting_data (read_uint64 input 104) (read_uint64 input 112)) written refl
            ∙ header-written
                (encode_lock_header (slice input 4 24) (read_slot input 64) lock_type_vesting
                  (slice input 120 140) (read_uint64 input 96) block)
                (touch lock_addr s),
      )

      pub header-create_multi_sig_lock :
          header (create_multi_sig_lock input caller block s).1 ≡ header s
      header-create_multi_sig_lock = ground (
        arith,
        create_multi_sig_lock_exact input caller block s,
        header-created (codes "MultiSigLockCreated")
            (encode_lock_header (slice input 4 24) (read_slot input 64) lock_type_multi_sig
              (slice input 97 117) (read_byte input 96) block)
            s,
      )

    pub header-get_lock :
        (input caller : Bytes) (s : StateDb) → header (get_lock input caller s).1 ≡ header s
    unfolding get_lock
    header-get_lock input caller s = ground (arith, header-touch s)

    pub header-releasable_amount :
        (input caller : Bytes) (block : ℕ) (s : StateDb)
        → header (releasable_amount input caller block s).1 ≡ header s
    unfolding releasable_amount
    header-releasable_amount input caller block s = ground (arith, header-touch s)
