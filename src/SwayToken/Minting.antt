-- ===== src/SwayToken/Minting.antt =====
-- What minting does to the supply, to a bucket and to a holder.
use native.Mathlib.Nat.{mod-eq_of_lt}
use waychain_consensus.Prelude.{
  ℕ, ◌+◌, ◌^◌, ◌<◌, ◌≤◌, ◌≡◌, Bool, true, false, ◌&&◌, ltb, leb, if◌then◌else◌, Bytes, bytes_eq,
  bytes_eq_refl, is_ok, arith, ok,
}
use waychain_consensus.Hashing.{Sha256, bytes_eq-sum256}
use waychain_consensus.State.{StateDb, touch}
use waychain_consensus.State.Storage.{sload, sstore, sload-sstore, sload-touch}
use waychain_consensus.Precompile.{storage_key, abs_diff}
use waychain_consensus.SwayToken.{
  sway_addr, sway_hard_ceiling, total_supply_slot, bucket_slot, holder_slot, sway_mint_internal,
}

module _ ⦃h : Sha256⦄ where
  unfoldable pub slot : Bytes → StateDb → ℕ
  slot j s = sload sway_addr (storage_key j) s

  unfoldable pub may_mint : ℕ → Bytes → StateDb → Bool
  may_mint amount bucket s =
      ltb 0 amount
      && leb amount (slot (bucket_slot bucket) s)
      && leb (slot total_supply_slot s + amount) sway_hard_ceiling

  touched_twice :
      (to : Bytes) (s : StateDb)
      → sload to (storage_key (holder_slot to)) (touch to (touch sway_addr s))
        ≡ sload to (storage_key (holder_slot to)) s
  touched_twice to s = simp sload-touch

  -- No two of the three slots have one key.
  keys_differ :
      (to bucket : Bytes)
      → (bytes_eq (storage_key total_supply_slot) (storage_key (bucket_slot bucket)) ≡ false)
        × (bytes_eq (storage_key (bucket_slot bucket)) (storage_key total_supply_slot) ≡ false)
        × (bytes_eq (storage_key (holder_slot to)) (storage_key (bucket_slot bucket)) ≡ false)
        × (bytes_eq (storage_key (holder_slot to)) (storage_key total_supply_slot) ≡ false)
        × (bytes_eq (storage_key (bucket_slot bucket)) (storage_key (holder_slot to)) ≡ false)
        × (bytes_eq (storage_key total_supply_slot) (storage_key (holder_slot to)) ≡ false)
  unfolding bytes_eq
  keys_differ to bucket = (
    bytes_eq-sum256 total_supply_slot (bucket_slot bucket),
    bytes_eq-sum256 (bucket_slot bucket) total_supply_slot,
    bytes_eq-sum256 (holder_slot to) (bucket_slot bucket),
    bytes_eq-sum256 (holder_slot to) total_supply_slot,
    bytes_eq-sum256 (bucket_slot bucket) (holder_slot to),
    bytes_eq-sum256 total_supply_slot (holder_slot to),
  )

  module _ (to : Bytes) (amount : ℕ) (bucket : Bytes) (s : StateDb)
      (room : sload to (storage_key (holder_slot to)) s + amount < 2 ^ 256)
      (small : slot total_supply_slot s + amount < 2 ^ 64) where
    mint_answer : is_ok (sway_mint_internal to amount bucket s).0 ≡ may_mint amount bucket s
    unfolding may_mint slot sway_mint_internal
    mint_answer = ground (
      arith,
      room,
      small,
      mod-eq_of_lt small,
      sload-touch sway_addr (storage_key (bucket_slot bucket)) sway_addr s,
      sload-touch sway_addr (storage_key total_supply_slot) sway_addr s,
      touched_twice to s,
    )

    credited : StateDb
    credited =
        sstore to (storage_key (holder_slot to))
          (sload to (storage_key (holder_slot to)) s + amount) (touch to (touch sway_addr s))

    -- The three writes of a mint.
    minted : StateDb
    unfolding slot
    minted =
        sstore sway_addr (storage_key (bucket_slot bucket))
          (abs_diff (slot (bucket_slot bucket) s) amount)
          (sstore sway_addr (storage_key total_supply_slot) (slot total_supply_slot s + amount)
            credited)

    bucket_left :
        sload sway_addr (storage_key (bucket_slot bucket)) (
          sstore sway_addr
            (storage_key total_supply_slot)
            (slot total_supply_slot s + amount)
            credited)
        ≡ slot (bucket_slot bucket) s
    unfolding slot credited
    bucket_left = ground (
      arith,
      keys_differ to bucket,
      bytes_eq_refl sway_addr,
      sload-sstore sway_addr (storage_key (bucket_slot bucket)) sway_addr
          (storage_key total_supply_slot) (slot total_supply_slot s + amount) credited,
      sload-sstore sway_addr (storage_key (bucket_slot bucket)) to (storage_key (holder_slot to))
          (sload to (storage_key (holder_slot to)) s + amount) (touch to (touch sway_addr s)),
      sload-touch sway_addr (storage_key (bucket_slot bucket)) to (touch sway_addr s),
      sload-touch sway_addr (storage_key (bucket_slot bucket)) sway_addr s,
    )

    mint_state : sway_mint_internal to amount bucket s ≡ (
        if may_mint amount bucket s
        then (ok tt, minted)
        else (sway_mint_internal to amount bucket s))
    unfolding may_mint slot sway_mint_internal minted credited
    mint_state = ground (
      arith,
      room,
      small,
      mod-eq_of_lt small,
      sload-touch sway_addr (storage_key (bucket_slot bucket)) sway_addr s,
      sload-touch sway_addr (storage_key total_supply_slot) sway_addr s,
      touched_twice to s,
      bucket_left,
    )

    total_minted : slot total_supply_slot minted ≡ slot total_supply_slot s + amount
    unfolding minted slot
    total_minted = ground (
      arith,
      keys_differ to bucket,
      bytes_eq_refl sway_addr,
      bytes_eq_refl (storage_key total_supply_slot),
      sload-sstore sway_addr (storage_key total_supply_slot) sway_addr
          (storage_key total_supply_slot)
          (sload sway_addr (storage_key total_supply_slot) s + amount) credited,
      sload-sstore sway_addr (storage_key total_supply_slot) sway_addr
          (storage_key (bucket_slot bucket))
          (abs_diff (sload sway_addr (storage_key (bucket_slot bucket)) s) amount)
          (sstore sway_addr (storage_key total_supply_slot)
            (sload sway_addr (storage_key total_supply_slot) s + amount) credited),
    )

    bucket_minted : slot (bucket_slot bucket) minted ≡ abs_diff (slot (bucket_slot bucket) s) amount
    unfolding minted slot
    bucket_minted = ground (
      arith,
      bytes_eq_refl sway_addr,
      bytes_eq_refl (storage_key (bucket_slot bucket)),
      sload-sstore sway_addr (storage_key (bucket_slot bucket)) sway_addr
          (storage_key (bucket_slot bucket))
          (abs_diff (sload sway_addr (storage_key (bucket_slot bucket)) s) amount)
          (sstore sway_addr (storage_key total_supply_slot)
            (sload sway_addr (storage_key total_supply_slot) s + amount) credited),
    )

    -- Where the holder's balance stays below 2^256 and the supply below 2^64, a mint from a bucket
    -- is accepted exactly when the amount is positive, the bucket has it and the new supply is at
    -- most the ceiling. An accepted mint raises the supply by the amount, to at most the ceiling,
    -- and takes the amount from the bucket.
    pub sway_mint_internal-exact :
        (is_ok (sway_mint_internal to amount bucket s).0 ≡ may_mint amount bucket s)
        × (may_mint amount bucket s ≡ true
            → (slot total_supply_slot (sway_mint_internal to amount bucket s).1
                ≡ slot total_supply_slot s + amount)
              × (slot total_supply_slot (sway_mint_internal to amount bucket s).1
                  ≤ sway_hard_ceiling)
              × (slot (bucket_slot bucket) (sway_mint_internal to amount bucket s).1 + amount
                  ≡ slot (bucket_slot bucket) s))
    unfolding may_mint
    sway_mint_internal-exact = (
      mint_answer,
      λ can. (
        ground (arith, can, mint_state, total_minted),
        ground (arith, can, mint_state, total_minted),
        ground (arith, can, mint_state, bucket_minted),
      ),
    )
