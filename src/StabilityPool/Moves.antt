-- ===== src/StabilityPool/Moves.antt =====
-- What each call of the pool does to the slots of the pool's account.
use waychain_consensus.Prelude.{
  ℕ, ◌+◌, ◌≡◌, [], ◌∷◌, ok, if◌then◌else◌, Bytes, codes, arith, bytes_eq,
}
use waychain_consensus.Hashing.{Sha256}
use waychain_consensus.State.{StateDb, touch, add_log}
use waychain_consensus.State.Storage.{sload, sstore}
use waychain_consensus.Precompile.{storage_key, big_bytes, read_slot, abs_diff}
use waychain_consensus.Precompile.Laws.{sload-sstore_hashed}
use waychain_consensus.StabilityPool.{
  pool_addr, deposit_slot, total_deposits, two_way_balance, stability_deposit, stability_withdraw,
}

module _ ⦃h : Sha256⦄ where
  unfoldable pub slot : Bytes → StateDb → ℕ
  slot k s = sload pool_addr (storage_key k) s

  unfoldable pub put : Bytes → ℕ → StateDb → StateDb
  put k v s = sstore pool_addr (storage_key k) v s

  pub slot-put :
      (j k : Bytes) (v : ℕ) (s : StateDb)
      → slot j (put k v s) ≡ (if bytes_eq k j then v else slot j s)
  unfolding slot put
  slot-put j k v s = sload-sstore_hashed pool_addr j k v s

  unfoldable pub raise : Bytes → ℕ → StateDb → StateDb
  raise k a s = put k (slot k s + a) s

  unfoldable pub lower : Bytes → ℕ → StateDb → StateDb
  lower k a s = put k (abs_diff (slot k s) a) s

  pub slot-raise :
      (j k : Bytes) (a : ℕ) (s : StateDb)
      → slot j (raise k a s) ≡ (if bytes_eq k j then slot k s + a else slot j s)
  unfolding raise
  slot-raise j k a s = slot-put j k (slot k s + a) s

  pub slot-lower :
      (j k : Bytes) (a : ℕ) (s : StateDb)
      → slot j (lower k a s) ≡ (if bytes_eq k j then abs_diff (slot k s) a else slot j s)
  unfolding lower
  slot-lower j k a s = slot-put j k (abs_diff (slot k s) a) s

  -- The state after an accepted deposit, and after an accepted withdrawal.
  unfoldable pub after_deposit : Bytes → ℕ → ℕ → StateDb → StateDb
  after_deposit caller a block s =
      add_log pool_addr (storage_key (codes "Deposited") ∷ storage_key caller ∷ []) (big_bytes a)
        block
        (raise two_way_balance a (
          raise total_deposits a
            (raise (deposit_slot caller) a (touch pool_addr (touch pool_addr s)))))

  unfoldable pub after_withdraw : Bytes → ℕ → ℕ → StateDb → StateDb
  after_withdraw caller a block s =
      add_log pool_addr (storage_key (codes "Withdrawn") ∷ storage_key caller ∷ []) (big_bytes a)
        block
        (lower two_way_balance a
          (lower total_deposits a (lower (deposit_slot caller) a (touch pool_addr s))))

  pub stability_deposit-ok :
      (input caller out : Bytes) (block : ℕ) (s : StateDb)
      → (stability_deposit input caller block s).0 ≡ ok out
      → (stability_deposit input caller block s).1
        ≡ after_deposit caller (read_slot input 4) block s
  unfolding stability_deposit after_deposit slot put raise
  stability_deposit-ok input caller out block s e = ground arith

  pub stability_withdraw-ok :
      (input caller out : Bytes) (block : ℕ) (s : StateDb)
      → (stability_withdraw input caller block s).0 ≡ ok out
      → (stability_withdraw input caller block s).1
        ≡ after_withdraw caller (read_slot input 4) block s
  unfolding stability_withdraw after_withdraw slot put lower
  stability_withdraw-ok input caller out block s e = ground arith
