-- ===== src/TrustlessLock/Release.antt =====
-- When a lock can be released, and what is left of it afterwards.
use waychain_consensus.Prelude.{
  ℕ, ◌^◌, ◌<◌, ◌≤◌, ◌≡◌, true, [], ◌∷◌, arith, ltb, leb, ◌==◌, ◌&&◌, not, is_ok, if◌then◌else◌,
  Bytes, codes, length, slice, drop, bytes_eq, bytes_eq_refl, ok, ◌∙◌, ap, err,
}
use waychain_consensus.Hashing.{Sha256}
use waychain_consensus.State.{StateDb, touch, add_log}
use waychain_consensus.State.Storage.{sload, sstore, sload-touch, sload-add_log}
use waychain_consensus.Precompile.{storage_key, big_bytes, word}
use waychain_consensus.Precompile.Laws.{
  sload-sstore_hashed, read_slot-word, take-length, length-take_enough, length-drop_enough,
}
use waychain_consensus.TrustlessLock.{
  lock_addr, trustless_lock_slot, vesting_data_slot, decode_unlock_block, clear_lock_type,
  vested_part, decode_vesting_end, nothing_to_release, releasable, release, releasable_amount,
  mark_released,
}
use waychain_consensus.TrustlessLock.Encoding.{clear_lock_type-fields}

vested_part-bounded : (start end_block block : ℕ) → vested_part start end_block block < 2 ^ 256
unfolding vested_part
vested_part-bounded start end_block block = ground arith

releasable-bounded : (header vesting block : ℕ) → releasable header vesting block < 2 ^ 256
unfolding releasable
releasable-bounded header vesting block =
    ground
      (arith, vested_part-bounded (decode_unlock_block header) (decode_vesting_end vesting) block)

-- The identifier that `release` passes on is read back from the new input.
slice-again :
    (input : Bytes) (a b c d : ℕ)
    → 36 ≤ length input
    → slice (a ∷ b ∷ c ∷ d ∷ slice input 4 36) 4 36 ≡ slice input 4 36
slice-again input a b c d h =
    take-length 32 (slice input 4 36)
      (length-take_enough 32 (drop 4 input) (omega (arith, length-drop_enough 4 input)))

length-slice : (input : Bytes) → 36 ≤ length input → length (slice input 4 36) ≡ 32
length-slice input h =
    length-take_enough 32 (drop 4 input) (omega (arith, length-drop_enough 4 input))

module _ ⦃h : Sha256⦄ where
  unfoldable pub lock_slot : Bytes → StateDb → ℕ
  lock_slot k s = sload lock_addr (storage_key k) s

  pub slot-touch : (j : Bytes) (s : StateDb) → lock_slot j (touch lock_addr s) ≡ lock_slot j s
  unfolding lock_slot
  slot-touch j s = sload-touch lock_addr (storage_key j) lock_addr s

  -- What the lock of an identifier releases at a block.
  unfoldable pub releasable_at : Bytes → ℕ → StateDb → ℕ
  unfolding lock_slot
  releasable_at lock_id block s =
      releasable (lock_slot (trustless_lock_slot lock_id) s)
        (lock_slot (vesting_data_slot lock_id) s) block

  module _ (input caller : Bytes) (block : ℕ) (s : StateDb) (long : 36 ≤ length input) where
    releasable_amount_exact :
        releasable_amount input caller block s
        ≡ (ok (word (releasable_at (slice input 4 36) block s)), touch lock_addr s)
    unfolding releasable_amount releasable_at lock_slot
    releasable_amount_exact = ground (
      arith,
      sload-touch lock_addr (storage_key (trustless_lock_slot (slice input 4 36))) lock_addr s,
      sload-touch lock_addr (storage_key (vesting_data_slot (slice input 4 36))) lock_addr s,
      releasable-bounded (lock_slot (trustless_lock_slot (slice input 4 36)) s)
          (lock_slot (vesting_data_slot (slice input 4 36)) s) block,
    )

  -- The state after an accepted release.
  unfoldable pub released : Bytes → ℕ → ℕ → StateDb → StateDb
  unfolding lock_slot
  released lock_id amount block s =
      add_log lock_addr (storage_key (codes "LockReleased") ∷ lock_id ∷ []) (big_bytes amount) block
        (sstore lock_addr (storage_key (trustless_lock_slot lock_id))
          (clear_lock_type (lock_slot (trustless_lock_slot lock_id) s))
          (touch lock_addr (touch lock_addr s)))

  mark_released-state :
      (lock_id : Bytes) (amount block : ℕ) (s : StateDb)
      → amount < 2 ^ 256
      → mark_released lock_id amount block (touch lock_addr s)
        ≡ (ok (word amount), released lock_id amount block s)
  unfolding mark_released released lock_slot
  mark_released-state lock_id amount block s bound = ground (
    arith,
    sload-touch lock_addr (storage_key (trustless_lock_slot lock_id)) lock_addr (touch lock_addr s),
    sload-touch lock_addr (storage_key (trustless_lock_slot lock_id)) lock_addr s,
  )

  releasable_at-bounded :
      (lock_id : Bytes) (block : ℕ) (s : StateDb) → releasable_at lock_id block s < 2 ^ 256
  unfolding releasable_at
  releasable_at-bounded lock_id block s =
      releasable-bounded (lock_slot (trustless_lock_slot lock_id) s)
        (lock_slot (vesting_data_slot lock_id) s) block

  module _ (input caller : Bytes) (block : ℕ) (s : StateDb) (long : 36 ≤ length input) where
    abbrev id : Bytes
    id = slice input 4 36

    inner_exact :
        releasable_amount (229 ∷ 246 ∷ 167 ∷ 184 ∷ id) caller block s
        ≡ (ok (word (releasable_at id block s)), touch lock_addr s)
    inner_exact =
        releasable_amount_exact (229 ∷ 246 ∷ 167 ∷ 184 ∷ id) caller block s
          (omega (arith, length-slice input long))
        ∙ ap (λ i. (ok (word (releasable_at i block s)), touch lock_addr s))
            (slice-again input 229 246 167 184 long)

    release-state : release input caller block s ≡ (
        if ltb 0 (releasable_at id block s)
        then (ok (word (releasable_at id block s)), released id (releasable_at id block s) block s)
        else (err nothing_to_release, touch lock_addr s))
    unfolding release
    release-state = ground (
      arith,
      inner_exact,
      read_slot-word (releasable_at id block s) (releasable_at-bounded id block s),
      mark_released-state id (releasable_at id block s) block s (releasable_at-bounded id block s),
    )

  slot-released :
      (j lock_id : Bytes) (amount block : ℕ) (s : StateDb)
      → lock_slot j (released lock_id amount block s) ≡ (
          if bytes_eq (trustless_lock_slot lock_id) j
          then clear_lock_type (lock_slot (trustless_lock_slot lock_id) s)
          else lock_slot j s)
  unfolding lock_slot released
  slot-released j lock_id amount block s = simp (sload-add_log, sload-sstore_hashed, sload-touch)

  -- For an input with an identifier, `release` is accepted exactly when the lock has something to
  -- release at the block. It then clears the type byte of the lock's header and writes no other
  -- slot; a refusal writes none.
  pub release_exact :
      (input caller : Bytes) (block : ℕ) (s : StateDb)
      → 36 ≤ length input
      → (is_ok (release input caller block s).0 ≡ ltb 0 (releasable_at (slice input 4 36) block s))
        × ((j : Bytes)
            → lock_slot j (release input caller block s).1 ≡ (
                if ltb 0 (releasable_at (slice input 4 36) block s)
                  && bytes_eq (trustless_lock_slot (slice input 4 36)) j
                then clear_lock_type (lock_slot (trustless_lock_slot (slice input 4 36)) s)
                else lock_slot j s))
  release_exact input caller block s long = (
    ground (arith, release-state input caller block s long),
    λ j. ground (
      arith,
      release-state input caller block s long,
      slot-released j (slice input 4 36) (releasable_at (slice input 4 36) block s) block s,
      slot-touch j s,
    ),
  )

  -- After an accepted release, any caller can release the same lock again, at exactly the blocks
  -- that are not below the unlock block of its header, unless the other bytes of the header are all
  -- zero. The unlock block of a vesting lock is its start.
  pub release_again :
      (input caller next_caller : Bytes) (block next_block : ℕ) (s : StateDb)
      → 36 ≤ length input
      → is_ok (release input caller block s).0 ≡ true
      → is_ok (release input next_caller next_block (release input caller block s).1).0 ≡ (
          let header = lock_slot (trustless_lock_slot (slice input 4 36)) s in
          not (clear_lock_type header == 0) && leb (decode_unlock_block header) next_block)
  unfolding releasable_at releasable
  release_again input caller next_caller block next_block s long first = ground (
    arith,
    release_exact input caller block s long,
    (release_exact input next_caller next_block (release input caller block s).1 long).0,
    (release_exact input caller block s long).1 (trustless_lock_slot (slice input 4 36)),
    clear_lock_type-fields (lock_slot (trustless_lock_slot (slice input 4 36)) s),
    bytes_eq_refl (trustless_lock_slot (slice input 4 36)),
  )
