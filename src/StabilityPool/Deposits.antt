-- ===== src/StabilityPool/Deposits.antt =====
-- What a deposit and a withdrawal do: when they are accepted, and every slot that they change.
use waychain_consensus.Prelude.{
  ℕ, ◌+◌, ◌^◌, ◌<◌, ◌≡◌, refl, false, List, ◌&&◌, is_ok, ltb, leb, if◌then◌else◌, Bytes, length,
  arith, bytes_eq, bytes_eq_iff,
}
use waychain_consensus.Hashing.{Sha256}
use waychain_consensus.State.{StateDb, touch, add_log}
use waychain_consensus.State.Storage.{sload-touch, sload-add_log}
use waychain_consensus.Precompile.{storage_key, read_slot, abs_diff}
use waychain_consensus.StabilityPool.{
  pool_addr, deposit_slot, total_deposits, two_way_balance, stability_withdraw,
}
use waychain_consensus.StabilityPool.Moves.{
  slot, put, raise, lower, slot-raise, slot-lower, after_deposit, after_withdraw,
}

module _ ⦃h : Sha256⦄ where
  pub slot-touch : (j b : Bytes) (s : StateDb) → slot j (touch b s) ≡ slot j s
  unfolding slot
  slot-touch j b s = sload-touch pool_addr (storage_key j) b s

  pub slot-add_log :
      (j b : Bytes) (ts : List Bytes) (d : Bytes) (n : ℕ) (s : StateDb)
      → slot j (add_log b ts d n s) ≡ slot j s
  unfolding slot
  slot-add_log j b ts d n s = sload-add_log pool_addr (storage_key j) b ts d n s

  -- Three slots under different keys.
  module _ (j k l m : Bytes) (a : ℕ) (s : StateDb) (kl : bytes_eq k l ≡ false)
      (km : bytes_eq k m ≡ false) (lm : bytes_eq l m ≡ false) where
    raise_three : slot j (raise m a (raise l a (raise k a s))) ≡ (
        if bytes_eq m j
        then slot j s + a
        else if bytes_eq l j
        then slot j s + a
        else if bytes_eq k j
        then slot j s + a
        else slot j s)
    raise_three = ground (
      arith,
      slot-raise j m a (raise l a (raise k a s)),
      slot-raise m l a (raise k a s),
      slot-raise j l a (raise k a s),
      slot-raise m k a s,
      slot-raise l k a s,
      slot-raise j k a s,
      kl,
      km,
      lm,
      bytes_eq_iff m j,
      bytes_eq_iff l j,
      bytes_eq_iff k j,
    )

    lower_three : slot j (lower m a (lower l a (lower k a s))) ≡ (
        if bytes_eq m j
        then abs_diff (slot j s) a
        else if bytes_eq l j
        then abs_diff (slot j s) a
        else if bytes_eq k j
        then abs_diff (slot j s) a
        else slot j s)
    lower_three = ground (
      arith,
      slot-lower j m a (lower l a (lower k a s)),
      slot-lower m l a (lower k a s),
      slot-lower j l a (lower k a s),
      slot-lower m k a s,
      slot-lower l k a s,
      slot-lower j k a s,
      kl,
      km,
      lm,
      bytes_eq_iff m j,
      bytes_eq_iff l j,
      bytes_eq_iff k j,
    )

  module _ (j caller : Bytes) (a block : ℕ) (s : StateDb) where
    pub slot-after_deposit : slot j (after_deposit caller a block s) ≡ (
        if bytes_eq two_way_balance j
        then slot j s + a
        else if bytes_eq total_deposits j
        then slot j s + a
        else if bytes_eq (deposit_slot caller) j
        then slot j s + a
        else slot j s)
    unfolding after_deposit bytes_eq
    slot-after_deposit = rw (
      slot-add_log,
      raise_three j (deposit_slot caller) total_deposits two_way_balance a
          (touch pool_addr (touch pool_addr s)) refl refl refl,
      slot-touch j pool_addr (touch pool_addr s),
      slot-touch j pool_addr s,
    )

    pub slot-after_withdraw : slot j (after_withdraw caller a block s) ≡ (
        if bytes_eq two_way_balance j
        then abs_diff (slot j s) a
        else if bytes_eq total_deposits j
        then abs_diff (slot j s) a
        else if bytes_eq (deposit_slot caller) j
        then abs_diff (slot j s) a
        else slot j s)
    unfolding after_withdraw bytes_eq
    slot-after_withdraw = rw (
      slot-add_log,
      lower_three j (deposit_slot caller) total_deposits two_way_balance a (touch pool_addr s) refl
          refl refl,
      slot-touch j pool_addr s,
    )

  -- The call is accepted exactly under these conditions, and then answers the amount.
  module _ (input caller : Bytes) (block : ℕ) (s : StateDb) where
    pub stability_withdraw-outcome :
        slot total_deposits s < 2 ^ 256
        → slot two_way_balance s < 2 ^ 256
        → slot (deposit_slot caller) s < 2 ^ 256
        → is_ok (stability_withdraw input caller block s).0 ≡ (
            leb 36 (length input)
            && ltb 0 (read_slot input 4)
            && leb (read_slot input 4) (slot (deposit_slot caller) s))
    unfolding stability_withdraw bytes_eq slot lower put
    stability_withdraw-outcome ht hb hd = ground (
      arith,
      slot-touch (deposit_slot caller) pool_addr s,
      slot-touch total_deposits pool_addr s,
      slot-touch two_way_balance pool_addr s,
      slot-lower total_deposits (deposit_slot caller) (read_slot input 4) (touch pool_addr s),
      slot-lower two_way_balance (deposit_slot caller) (read_slot input 4) (touch pool_addr s),
      slot-lower two_way_balance total_deposits (read_slot input 4)
          (lower (deposit_slot caller) (read_slot input 4) (touch pool_addr s)),
    )
