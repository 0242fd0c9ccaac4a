-- ===== src/TrustlessLock/MultiSig.antt =====
-- What becomes of a multi-signature lock: nothing in evm/trustless_lock.go collects its signatures.
use waychain_consensus.Prelude.{
  ℕ, ◌+◌, ◌^◌, ◌∙◌, err, ◌<◌, ◌≤◌, ◌≡◌, refl, ap, Bool, true, false, List, [], ◌∷◌, arith, leb,
  ◌==◌, ◌&&◌, ◌||◌, is_ok, Bytes, codes, length, slice, bytes_eq, bytes_eq_refl, bytes_eq_iff,
  be_value,
}
use waychain_consensus.Hashing.{Sha256}
use waychain_consensus.State.{StateDb, touch}
use waychain_consensus.State.Storage.{sload, sstore}
use waychain_consensus.Precompile.{storage_key, big_bytes, read_slot, read_byte, selector_bytes}
use waychain_consensus.TrustlessLock.{
  lock_addr, trustless_lock_slot, lock_type_of, lock_type_multi_sig, encode_lock_header, releasable,
  create_multi_sig_lock, release, extend, release_too_short, decode_unlock_block,
  encode_unlock_block, trustless_lock_precompile,
}
use waychain_consensus.TrustlessLock.Encoding.{decode-encode_lock_header}
use waychain_consensus.TrustlessLock.Release.{lock_slot, releasable_at, release_exact}
use waychain_consensus.TrustlessLock.Creation.{time_lock_id}
use waychain_consensus.TrustlessLock.Header.{
  header, header-touch, header-store, header-add_log, header-count_lock, header-create_time_lock,
  header-create_vesting_lock, header-create_multi_sig_lock, header-get_lock,
  header-releasable_amount, multi_header, multi_headed, create_multi_sig_lock_exact,
}

-- A call of the precompile.
pub record LockCall : Type 0 where
  pub input : Bytes
  pub caller : Bytes
  pub block : ℕ

module _ ⦃h : Sha256⦄ where
  unfoldable pub run : List LockCall → StateDb → StateDb
  run [] s = s
  run (c ∷ cs) s = run cs (trustless_lock_precompile c.input c.caller c.block s).1

  -- Whether a call asks for a new lock, of whatever kind, under an identifier.
  unfoldable pub asks_for : Bytes → LockCall → Bool
  asks_for lock_id c =
      let sel = selector_bytes c.input in
      ((sel == 2712847316) || (sel == 2999178469) || (sel == 3285509622))
      && bytes_eq (time_lock_id c.input c.block) lock_id

  unfoldable pub any_asks_for : Bytes → List LockCall → Bool
  any_asks_for lock_id [] = false
  any_asks_for lock_id (c ∷ cs) = asks_for lock_id c || any_asks_for lock_id cs

  release_short :
      (input caller : Bytes) (block : ℕ) (s : StateDb)
      → leb 36 (length input) ≡ false
      → release input caller block s ≡ (err release_too_short, s)
  unfolding release
  release_short input caller block s short = ground (arith, short)

  -- What keeps the header of a multi-signature lock.
  module _ (lock_id : Bytes) where
    releasable_at-multi_sig :
        (block : ℕ) (s : StateDb)
        → lock_type_of (header lock_id s) ≡ lock_type_multi_sig
        → releasable_at lock_id block s ≡ 0
    unfolding releasable_at releasable header
    releasable_at-multi_sig block s kind = ground (arith, kind)

    -- The two operations that rewrite the header of their lock leave that of a multi-signature lock.
    header-release_long :
        (input caller : Bytes) (block : ℕ) (s : StateDb)
        → 36 ≤ length input
        → lock_type_of (header lock_id s) ≡ lock_type_multi_sig
        → header lock_id (release input caller block s).1 ≡ header lock_id s
    unfolding header bytes_eq
    header-release_long input caller block s long kind = ground (
      arith,
      (release_exact input caller block s long).1 (trustless_lock_slot lock_id),
      bytes_eq_iff (slice input 4 36) lock_id,
      ap (λ i. releasable_at i block s) {x = slice input 4 36} {y = lock_id},
      releasable_at-multi_sig block s kind,
    )

    header-release :
        (input caller : Bytes) (block : ℕ) (s : StateDb)
        → lock_type_of (header lock_id s) ≡ lock_type_multi_sig
        → header lock_id (release input caller block s).1 ≡ header lock_id s
    header-release input caller block s kind =
        ground (
          arith,
          release_short input caller block s,
          header-release_long input caller block s,
          kind,
        )

    same_slot :
        (named : Bytes) (s : StateDb)
        → bytes_eq named lock_id ≡ true
        → sload lock_addr (storage_key (trustless_lock_slot named)) s ≡ header lock_id s
    unfolding header lock_slot
    same_slot named s same =
        ap (λ i. sload lock_addr (storage_key (trustless_lock_slot i)) s)
          ((bytes_eq_iff named lock_id).0 same)

    header-extend :
        (input caller : Bytes) (block : ℕ) (s : StateDb)
        → lock_type_of (header lock_id s) ≡ lock_type_multi_sig
        → header lock_id (extend input caller block s).1 ≡ header lock_id s
    unfolding extend bytes_eq
    header-extend input caller block s kind = ground (
      arith,
      kind,
      header-touch lock_id s,
      header-store lock_id lock next (touch lock_addr s),
      header-add_log lock_id (storage_key (codes "LockExtended") ∷ slice input 4 36 ∷ [])
          (big_bytes (read_slot input 36)) block
          (sstore lock_addr (storage_key lock) next (touch lock_addr s)),
      own,
    )
      where
        lock : Bytes
        lock = trustless_lock_slot (slice input 4 36)

        old : ℕ
        old = sload lock_addr (storage_key lock) (touch lock_addr s)

        next : ℕ
        next = encode_unlock_block old (decode_unlock_block old + read_slot input 36)

        own : bytes_eq (slice input 4 36) lock_id ≡ true → old ≡ header lock_id s
        own same = same_slot (slice input 4 36) (touch lock_addr s) same ∙ header-touch lock_id s

  -- A call that does not ask for a lock under the identifier leaves its multi-signature header alone.
  module _ (lock_id : Bytes) where
    step-kept :
        (c : LockCall) (s : StateDb)
        → asks_for lock_id c ≡ false
        → lock_type_of (header lock_id s) ≡ lock_type_multi_sig
        → header lock_id (trustless_lock_precompile c.input c.caller c.block s).1 ≡ header lock_id s
    unfolding trustless_lock_precompile asks_for
    step-kept c s none kind = ground (
      arith,
      none,
      kind,
      header-create_time_lock lock_id c.input c.caller c.block s,
      header-create_vesting_lock lock_id c.input c.caller c.block s,
      header-create_multi_sig_lock lock_id c.input c.caller c.block s,
      header-get_lock lock_id c.input c.caller s,
      header-releasable_amount lock_id c.input c.caller c.block s,
      header-release lock_id c.input c.caller c.block s,
      header-extend lock_id c.input c.caller c.block s,
    )

    run-kept :
        (cs : List LockCall) (s : StateDb)
        → any_asks_for lock_id cs ≡ false
        → lock_type_of (header lock_id s) ≡ lock_type_multi_sig
        → header lock_id (run cs s) ≡ header lock_id s
    unfolding run any_asks_for
    run-kept [] s none kind = refl
    run-kept (c ∷ cs) s none kind =
        run-kept cs (trustless_lock_precompile c.input c.caller c.block s).1 (ground (arith, none))
          (ground (arith, kept, kind))
        ∙ kept
      where
        kept :
            header lock_id (trustless_lock_precompile c.input c.caller c.block s).1
            ≡ header lock_id s
        kept = step-kept c s (ground (arith, none)) kind

    header-created_multi_sig :
        (input caller : Bytes) (block : ℕ) (s : StateDb)
        → bytes_eq (time_lock_id input block) lock_id ≡ true
        → is_ok (create_multi_sig_lock input caller block s).0 ≡ true
        → header lock_id (create_multi_sig_lock input caller block s).1
          ≡ multi_header input caller block s
    unfolding bytes_eq
    header-created_multi_sig input caller block s same accepted = ground (
      arith,
      same,
      accepted,
      create_multi_sig_lock_exact input caller block s,
      header-count_lock lock_id (codes "MultiSigLockCreated") (time_lock_id input block)
          (read_slot input 64) block (multi_headed input caller block s),
      header-store lock_id (trustless_lock_slot (time_lock_id input block))
          (multi_header input caller block s) (touch lock_addr s),
    )

    release-refused :
        (request by : Bytes) (at : ℕ) (s : StateDb)
        → bytes_eq (slice request 4 36) lock_id ≡ true
        → lock_type_of (header lock_id s) ≡ lock_type_multi_sig
        → is_ok (release request by at s).0 ≡ false
    release-refused request by at s same kind = ground (
      arith,
      release_short request by at s,
      (λ (long : 36 ≤ length request). (release_exact request by at s long).0),
      ap (λ i. releasable_at i at s) ((bytes_eq_iff (slice request 4 36) lock_id).0 same),
      releasable_at-multi_sig lock_id at s kind,
    )

  -- After an accepted creation of a multi-signature lock, and any further calls of the precompile
  -- of which none asks for a new lock of any kind under the same identifier, the header is still
  -- the one that the creation wrote, and a release of the lock is refused, whoever asks at whatever
  -- block. The pool's address spells a number below 2^160, and the last byte of the recipient is
  -- below 256.
  pub release-run-create_multi_sig_lock :
      (input caller : Bytes) (block : ℕ) (s : StateDb) (cs : List LockCall) (request by : Bytes)
      (at : ℕ)
      → be_value (slice input 4 24) < 2 ^ 160
      → read_byte (slice input 97 117) 19 < 256
      → is_ok (create_multi_sig_lock input caller block s).0 ≡ true
      → any_asks_for (time_lock_id input block) cs ≡ false
      → bytes_eq (slice request 4 36) (time_lock_id input block) ≡ true
      → let after = run cs (create_multi_sig_lock input caller block s).1 in
        (is_ok (release request by at after).0 ≡ false)
        × (lock_slot (trustless_lock_slot (time_lock_id input block)) after
            ≡ encode_lock_header
                (slice input 4 24)
                (read_slot input 64)
                lock_type_multi_sig
                (slice input 97 117)
                (read_byte input 96)
                block)
  unfolding header
  release-run-create_multi_sig_lock input caller block s cs request by at hp hr accepted none same =
      (
        release-refused (time_lock_id input block) request by at
            (run cs (create_multi_sig_lock input caller block s).1) same
            (ap lock_type_of kept ∙ kind),
        kept,
      )
    where
      kind : lock_type_of (multi_header input caller block s) ≡ lock_type_multi_sig
      kind =
          (decode-encode_lock_header (slice input 4 24) (read_slot input 64) lock_type_multi_sig
            (slice input 97 117) (read_byte input 96) block hp hr (omega arith)).0

      written :
          header (time_lock_id input block) (create_multi_sig_lock input caller block s).1
          ≡ multi_header input caller block s
      written =
          header-created_multi_sig (time_lock_id input block) input caller block s
            (bytes_eq_refl (time_lock_id input block)) accepted

      kept :
          header (time_lock_id input block) (run cs (create_multi_sig_lock input caller block s).1)
          ≡ multi_header input caller block s
      kept =
          run-kept (time_lock_id input block) cs (create_multi_sig_lock input caller block s).1 none
            (ap lock_type_of written ∙ kind)
          ∙ written
