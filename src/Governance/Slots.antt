-- ===== src/Governance/Slots.antt =====
-- The slots of the governance account.
use waychain_consensus.Prelude.{ℕ, ◌<◌, ◌≡◌, arith, if◌then◌else◌, Bytes, bytes_eq, List}
use waychain_consensus.Hashing.{Sha256}
use waychain_consensus.State.{StateDb, touch, add_log}
use waychain_consensus.State.Storage.{sload, sstore, sload-touch, sload-add_log}
use waychain_consensus.Precompile.{storage_key}
use waychain_consensus.Precompile.Laws.{sload-sstore_hashed}
use waychain_consensus.Governance.{governance_addr, second_of, with_second}

module _ ⦃h : Sha256⦄ where
  -- A slot, and a write of one.
  unfoldable pub slot : Bytes → StateDb → ℕ
  slot j s = sload governance_addr (storage_key j) s

  unfoldable pub put : Bytes → ℕ → StateDb → StateDb
  put j v s = sstore governance_addr (storage_key j) v s

  pub slot-put :
      (k j : Bytes) (v : ℕ) (s : StateDb)
      → slot k (put j v s) ≡ (if bytes_eq j k then v else slot k s)
  unfolding slot put
  slot-put k j v s = sload-sstore_hashed governance_addr k j v s

  pub slot-touch : (k : Bytes) (s : StateDb) → slot k (touch governance_addr s) ≡ slot k s
  unfolding slot
  slot-touch k s = sload-touch governance_addr (storage_key k) governance_addr s

  pub slot-add_log :
      (k b : Bytes) (ts : List Bytes) (d : Bytes) (n : ℕ) (s : StateDb)
      → slot k (add_log b ts d n s) ≡ slot k s
  unfolding slot
  slot-add_log k b ts d n s = sload-add_log governance_addr (storage_key k) b ts d n s

pub second_of-with_second : (v b : ℕ) → b < 256 → second_of (with_second v b) ≡ b
second_of-with_second v b small = omega arith
