-- ===== src/TrustlessLock/Creation.antt =====
-- What an accepted creation of a time lock promises.
use waychain_consensus.Prelude.{
  ℕ, ap, true, ◌+◌, ◌%◌, ◌^◌, ◌<◌, ◌≡◌, Bool, false, arith, leb, ◌==◌, ◌&&◌, is_ok, if◌then◌else◌,
  Bytes, codes, length, slice, bytes_eq, bytes_eq_refl, be_value, [], ◌∷◌, ◌++◌, refl, ok, err,
}
use waychain_consensus.Hashing.{Sha256}
use waychain_consensus.State.{StateDb, touch, add_log}
use waychain_consensus.State.Storage.{sstore, sload-touch, sload-add_log}
use waychain_consensus.Precompile.{storage_key, big_bytes, read_slot, read_byte}
use waychain_consensus.Precompile.Laws.{sload-sstore_hashed}
use waychain_consensus.TrustlessLock.{
  lock_addr, lock_count, trustless_lock_slot, vesting_data_slot, lock_type_time, encode_lock_header,
  generate_lock_id, releasable, create_time_lock, get_trustless_param, count_lock,
  period_below_minimum, time_lock_too_short,
}
use waychain_consensus.TrustlessLock.Encoding.{decode-encode_lock_header}
use waychain_consensus.TrustlessLock.Release.{slot-touch, lock_slot, releasable_at}

module _ ⦃h : Sha256⦄ where
  -- The minimum period in force.
  unfoldable pub minimum_period : StateDb → ℕ
  unfolding lock_slot
  minimum_period s =
      let val = lock_slot (codes "param:" ++ codes "minLockPeriod") s in
      if val == 0 then 2592000 else val

  -- The identifier that an input asks for, the same for the three kinds, and a time lock's header.
  unfoldable pub time_lock_id : Bytes → ℕ → Bytes
  time_lock_id input block =
      generate_lock_id (slice input 4 24) (slice input 24 44) (slice input 44 64)
        (read_slot input 64) block

  unfoldable pub time_lock_header : Bytes → ℕ → ℕ
  time_lock_header input block =
      encode_lock_header (slice input 4 24) (read_slot input 64) lock_type_time
        (slice input 128 148) ((block + read_slot input 96) % 2 ^ 64) block

  get_trustless_param_exact :
      (s : StateDb)
      → get_trustless_param (codes "minLockPeriod") 2592000 s
        ≡ (ok (minimum_period s), touch lock_addr s)
  unfolding get_trustless_param minimum_period lock_slot
  get_trustless_param_exact s = ground (
    arith,
    sload-touch lock_addr (storage_key (codes "param:" ++ codes "minLockPeriod")) lock_addr s,
  )

  -- The count and the log of a creation.
  counted : Bytes → Bytes → ℕ → ℕ → StateDb → StateDb
  unfolding lock_slot
  counted event lock_id amount block s =
      add_log lock_addr (storage_key event ∷ lock_id ∷ []) (big_bytes amount) block
        (sstore lock_addr (storage_key lock_count) (lock_slot lock_count s + 1) s)

  count_lock_exact :
      (event lock_id : Bytes) (amount block : ℕ) (s : StateDb)
      → lock_slot lock_count s + 1 < 2 ^ 256
      → count_lock event lock_id amount block s ≡ (ok lock_id, counted event lock_id amount block s)
  unfolding count_lock counted lock_slot
  count_lock_exact event lock_id amount block s room = ground arith

  pub count_lock-is_ok :
      (event lock_id : Bytes) (amount block : ℕ) (s : StateDb)
      → lock_slot lock_count s + 1 < 2 ^ 256
      → is_ok (count_lock event lock_id amount block s).0 ≡ true
  count_lock-is_ok event lock_id amount block s room =
      ap (λ r. is_ok r.0) (count_lock_exact event lock_id amount block s room)

  slot-counted :
      (event lock_id : Bytes) (amount block : ℕ) (s : StateDb) (j : Bytes)
      → bytes_eq lock_count j ≡ false
      → lock_slot j (counted event lock_id amount block s) ≡ lock_slot j s
  unfolding counted lock_slot
  slot-counted event lock_id amount block s j differ =
      simp (sload-add_log, sload-sstore_hashed, differ)

  module _ (input caller : Bytes) (block : ℕ) (s : StateDb) where
    -- The state in which the header has been written.
    headed : StateDb
    headed =
        sstore lock_addr (storage_key (trustless_lock_slot (time_lock_id input block)))
          (time_lock_header input block) (touch lock_addr (touch lock_addr s))

    slot-headed :
        (j : Bytes)
        → lock_slot j headed ≡ (
            if bytes_eq (trustless_lock_slot (time_lock_id input block)) j
            then time_lock_header input block
            else lock_slot j s)
    unfolding headed lock_slot
    slot-headed j = simp (sload-sstore_hashed, sload-touch)

    room-headed : lock_slot lock_count headed ≡ lock_slot lock_count s
    unfolding bytes_eq
    room-headed = slot-headed lock_count

    create_time_lock_exact :
        lock_slot lock_count s + 1 < 2 ^ 256
        → create_time_lock input caller block s ≡ (
            if leb 148 (length input)
            then (if leb (minimum_period s) (read_slot input 96)
                then (
                  ok (time_lock_id input block),
                  counted
                      (codes "TimeLockCreated")
                      (time_lock_id input block)
                      (read_slot input 64)
                      block
                      headed,
                )
                else (
                  err (period_below_minimum (read_slot input 96) (minimum_period s)),
                  touch lock_addr s,
                ))
            else (err time_lock_too_short, s))
    unfolding create_time_lock time_lock_id time_lock_header headed
    create_time_lock_exact room = ground (
      arith,
      get_trustless_param_exact s,
      count_lock_exact (codes "TimeLockCreated") (time_lock_id input block) (read_slot input 64)
          block headed (omega (arith, room, room-headed)),
    )

  module _ (input caller : Bytes) (block : ℕ) (s : StateDb)
      (room : lock_slot lock_count s + 1 < 2 ^ 256) where
    abbrev accepted : Bool
    accepted = leb 148 (length input) && leb (minimum_period s) (read_slot input 96)

    kept :
        (j : Bytes)
        → bytes_eq lock_count j ≡ false
        → lock_slot j (create_time_lock input caller block s).1 ≡ (
            if accepted && bytes_eq (trustless_lock_slot (time_lock_id input block)) j
            then time_lock_header input block
            else lock_slot j s)
    kept j differ = ground (
      arith,
      create_time_lock_exact input caller block s room,
      slot-counted (codes "TimeLockCreated") (time_lock_id input block) (read_slot input 64) block
          (headed input caller block s) j differ,
      slot-headed input caller block s j,
      slot-touch j s,
    )

    header-kept :
        lock_slot
          (trustless_lock_slot (time_lock_id input block))
          (create_time_lock input caller block s).1
        ≡ (if accepted
            then time_lock_header input block
            else lock_slot (trustless_lock_slot (time_lock_id input block)) s)
    unfolding bytes_eq
    header-kept = ground (
      arith,
      kept (trustless_lock_slot (time_lock_id input block)) refl,
      bytes_eq_refl (time_lock_id input block),
    )

    vesting-kept :
        lock_slot
          (vesting_data_slot (time_lock_id input block))
          (create_time_lock input caller block s).1
        ≡ lock_slot (vesting_data_slot (time_lock_id input block)) s
    unfolding bytes_eq
    vesting-kept = ground (arith, kept (vesting_data_slot (time_lock_id input block)) refl)

  time_lock_header-releasable :
      (input : Bytes) (block vesting next : ℕ)
      → be_value (slice input 4 24) < 2 ^ 160
      → read_byte (slice input 128 148) 19 < 256
      → releasable (time_lock_header input block) vesting next ≡ (
          if time_lock_header input block == 0
          then 0
          else if leb ((block + read_slot input 96) % 2 ^ 64) next
          then 1
          else 0)
  unfolding releasable time_lock_header
  time_lock_header-releasable input block vesting next hp hr = ground (
    arith,
    decode-encode_lock_header (slice input 4 24) (read_slot input 64) lock_type_time
        (slice input 128 148) ((block + read_slot input 96) % 2 ^ 64) block hp hr (omega arith),
  )

  -- An input of bytes to `createTimeLock` is accepted exactly when it is long enough and its period
  -- is at least the minimum in force. The new lock is then releasable at exactly the blocks from
  -- the unlock block on, the block plus the period modulo 2^64, unless its header is zero.
  pub create_time_lock_promise :
      (input caller : Bytes) (block next : ℕ) (s : StateDb)
      → lock_slot lock_count s + 1 < 2 ^ 256
      → be_value (slice input 4 24) < 2 ^ 160
      → read_byte (slice input 128 148) 19 < 256
      → let accepted = leb 148 (length input) && leb (minimum_period s) (read_slot input 96) in
        let header = time_lock_header input block in
        (is_ok (create_time_lock input caller block s).0 ≡ accepted)
        × (releasable_at (time_lock_id input block) next (create_time_lock input caller block s).1
            ≡ (if accepted
                then (if header == 0
                    then 0
                    else if leb ((block + read_slot input 96) % 2 ^ 64) next
                    then 1
                    else 0)
                else releasable_at (time_lock_id input block) next s))
  unfolding releasable_at
  create_time_lock_promise input caller block next s room hp hr = (
    ground (arith, create_time_lock_exact input caller block s room),
    ground (
      arith,
      header-kept input caller block s room,
      vesting-kept input caller block s room,
      time_lock_header-releasable input block
          (lock_slot (vesting_data_slot (time_lock_id input block)) s) next hp hr,
    ),
  )
