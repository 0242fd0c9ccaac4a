-- ===== src/TrustlessLock/Extension.antt =====
-- What extending a lock does.
use waychain_consensus.Prelude.{
  ℕ, ◌+◌, ◌%◌, ◌^◌, ◌<◌, ◌≡◌, arith, ltb, leb, ◌==◌, ◌&&◌, is_ok, if◌then◌else◌, Bytes, length,
  slice, bytes_eq_refl, lookup_or,
}
use waychain_consensus.Hashing.{Sha256}
use waychain_consensus.State.{StateDb, touch, add_log, account_at}
use waychain_consensus.State.Storage.{sload, sstore}
use waychain_consensus.Precompile.{storage_key, read_slot}
use waychain_consensus.Precompile.Laws.{sload-sstore_hashed}
use waychain_consensus.TrustlessLock.{
  lock_addr, trustless_lock_slot, lock_type_time, lock_type_of, decode_unlock_block,
  encode_unlock_block, extend,
}
use waychain_consensus.TrustlessLock.Encoding.{decode-encode_unlock_block}
use waychain_consensus.TrustlessLock.Release.{lock_slot, slot-touch}

module _ ⦃h : Sha256⦄ where
  -- On a header below 2^256, `extend` is accepted exactly when the input is long enough, the number
  -- of blocks is positive and the type byte is that of a time lock, for any caller and also for an
  -- identifier without a lock. The unlock block then grows by that number modulo 2^64, and the type
  -- byte stays.
  pub extend_exact :
      (input caller : Bytes) (block : ℕ) (s : StateDb)
      → lock_slot (trustless_lock_slot (slice input 4 36)) s < 2 ^ 256
      → let lock = trustless_lock_slot (slice input 4 36) in
        let header = lock_slot lock s in
        let accepted =
          leb 68 (length input)
          && ltb 0 (read_slot input 36)
          && (lock_type_of header == lock_type_time) in
        (is_ok (extend input caller block s).0 ≡ accepted)
        × (decode_unlock_block (lock_slot lock (extend input caller block s).1) ≡ (
            if accepted
            then (decode_unlock_block header + read_slot input 36) % 2 ^ 64
            else decode_unlock_block header))
        × (lock_type_of (lock_slot lock (extend input caller block s).1) ≡ lock_type_of header)
  unfolding extend lock_slot sload account_at lookup_or add_log
  extend_exact input caller block s range = (
    ground (arith, slot-touch lock s),
    ground (arith, own, slot-touch lock s, fields),
    ground (arith, own, slot-touch lock s, fields),
  )
    where
      lock : Bytes
      lock = trustless_lock_slot (slice input 4 36)

      next : ℕ
      next =
          encode_unlock_block (lock_slot lock s)
            (decode_unlock_block (lock_slot lock s) + read_slot input 36)

      own : lock_slot lock (sstore lock_addr (storage_key lock) next (touch lock_addr s)) ≡ next
      own = ground (
        arith,
        sload-sstore_hashed lock_addr lock lock next (touch lock_addr s),
        bytes_eq_refl lock,
      )

      fields :
          (decode_unlock_block next
            ≡ (decode_unlock_block (lock_slot lock s) + read_slot input 36) % 2 ^ 64)
          × (lock_type_of next ≡ lock_type_of (lock_slot lock s))
      fields = ground (
        arith,
        decode-encode_unlock_block (lock_slot lock s)
            (decode_unlock_block (lock_slot lock s) + read_slot input 36) range,
      )
