-- ===== src/StabilityPool/Rewards.antt =====
-- Rewards: what a claim and the absorption of a vault's debt write, and that they leave the ledger
-- of deposits alone.
use waychain_consensus.Prelude.{
  ◌||◌, ◌^◌, ℕ, ◌+◌, ◌*◌, ◌/◌, ◌-◌, ◌≡◌, Bool, true, [], ◌∷◌, ◌&&◌, Outcome, ok, err, ◌∙◌, panic,
  ltb, if◌then◌else◌, Bytes, codes, slice, arith, bytes_eq, not,
}
use waychain_consensus.Hashing.{Sha256}
use waychain_consensus.State.{StateDb, touch, add_log}
use waychain_consensus.State.Storage.{sload}
use waychain_consensus.Precompile.{word, Call, ◌>>=◌, storage_key, big_bytes, abs_diff}
use waychain_consensus.StabilityPool.{
  no_rewards, PoolError, pool_addr, vault_addr, debt_key, reward_slot, lp_fee_slot, total_deposits,
  two_way_balance, total_rewards, way_rewards, sway_rewards, stability_claim_rewards,
  distribute_rewards, pay_penalty, absorb_debt, log_absorbed, reward_and_log, stability_absorb,
  get_vault_debt,
}
use waychain_consensus.StabilityPool.Moves.{slot, put, slot-put, raise, slot-raise}
use waychain_consensus.StabilityPool.Deposits.{slot-touch, slot-add_log}

module _ ⦃h : Sha256⦄ where
  -- The keys that only deposits and withdrawals write.
  abbrev pub is_ledger : Bytes → Bytes → Bool
  is_ledger caller j =
      not (bytes_eq (reward_slot caller) j)
      && not (bytes_eq (lp_fee_slot caller) j)
      && not (bytes_eq total_rewards j)
      && not (bytes_eq way_rewards j)
      && not (bytes_eq sway_rewards j)
      && not (bytes_eq two_way_balance j)

  after_claim : Bytes → StateDb → StateDb
  after_claim caller s = put sway_rewards 0 (
      put way_rewards 0 (
        put total_rewards 0
          (put (lp_fee_slot caller) 0 (put (reward_slot caller) 0 (touch pool_addr s)))))

  slot-after_claim :
      (caller j : Bytes) (s : StateDb)
      → slot j (after_claim caller s) ≡ (
          if bytes_eq sway_rewards j
          then 0
          else if bytes_eq way_rewards j
          then 0
          else if bytes_eq total_rewards j
          then 0
          else if bytes_eq (lp_fee_slot caller) j
          then 0
          else if bytes_eq (reward_slot caller) j
          then 0
          else slot j s)
  unfolding after_claim
  slot-after_claim caller j s = simp (slot-put, slot-touch)

  module _ (input caller : Bytes) (block : ℕ) (s : StateDb) where
    stability_claim_rewards-state : (stability_claim_rewards input caller block s).1 ≡ (
        let pending =
          slot (reward_slot caller) (touch pool_addr s)
          + slot (lp_fee_slot caller) (touch pool_addr s) in
        if ltb 0 pending
        then add_log pool_addr
            (storage_key (codes "RewardsClaimed") ∷ storage_key caller ∷ [])
            (big_bytes pending)
            block
            (after_claim caller s)
        else touch pool_addr s)
    unfolding stability_claim_rewards slot after_claim put
    stability_claim_rewards-state = ground arith

    -- A claim keeps the ledger.
    pub stability_claim_rewards-is_ledger :
        (j : Bytes)
        → is_ledger caller j ≡ true
        → slot j (stability_claim_rewards input caller block s).1 ≡ slot j s
    stability_claim_rewards-is_ledger j e = ground (
      arith,
      stability_claim_rewards-state,
      slot-add_log j pool_addr (storage_key (codes "RewardsClaimed") ∷ storage_key caller ∷ [])
          (big_bytes (
            slot (reward_slot caller) (touch pool_addr s)
            + slot (lp_fee_slot caller) (touch pool_addr s)))
          block (after_claim caller s),
      slot-after_claim caller j s,
      slot-touch j pool_addr s,
    )

  -- `distributeRewards` splits the reward into halves, the odd unit going to the second bucket.
  distribute_rewards-is_ledger :
      (caller j : Bytes) (total reward : ℕ) (s : StateDb)
      → is_ledger caller j ≡ true
      → slot j (distribute_rewards total reward s).1 ≡ slot j s
  unfolding distribute_rewards slot raise put
  distribute_rewards-is_ledger caller j total reward s e = ground (
    arith,
    slot-raise j way_rewards (reward / 2) s,
    slot-raise j sway_rewards (reward - reward / 2) (raise way_rewards (reward / 2) s),
    slot-raise j total_rewards reward
        (raise sway_rewards (reward - reward / 2) (raise way_rewards (reward / 2) s)),
  )

  pay_penalty-is_ledger :
      (caller j : Bytes) (total debt : ℕ) (s : StateDb)
      → is_ledger caller j ≡ true
      → slot j (pay_penalty total debt s).1 ≡ slot j s
  unfolding pay_penalty
  pay_penalty-is_ledger caller j total debt s e =
      ground (arith, distribute_rewards-is_ledger caller j total (debt * 1000 / 10000) s e)

  -- A chain keeps a slot when both parts do.
  bind-keeps :
      {A B : Type 0} (j : Bytes) (r : Outcome PoolError A) (f : A → Call PoolError B)
      (t s : StateDb)
      → slot j t ≡ slot j s
      → ((a : A) → slot j (f a t).1 ≡ slot j t)
      → slot j (((λ (u : StateDb). (r, t)) >>= f) s).1 ≡ slot j s
  bind-keeps j (ok a) f t s e k = k a ∙ e
  bind-keeps j (err x) f t s e k = e
  bind-keeps j panic f t s e k = e

  reward_and_log-is_ledger :
      (caller j vault_id : Bytes) (debt block : ℕ) (s : StateDb)
      → is_ledger caller j ≡ true
      → slot j (reward_and_log vault_id debt block s).1 ≡ slot j s
  unfolding reward_and_log log_absorbed sload slot
  reward_and_log-is_ledger caller j vault_id debt block s e =
      bind-keeps j paid.0 (λ _. log_absorbed vault_id debt block) paid.1 s
        (pay_penalty-is_ledger caller j (slot total_deposits s) debt s e)
        (λ a.
          slot-add_log j pool_addr (storage_key (codes "Absorbed") ∷ storage_key vault_id ∷ [])
            (big_bytes debt) block paid.1)
    where
      paid : Outcome PoolError (Unit {0}) × StateDb
      paid = pay_penalty (slot total_deposits s) debt s

  absorb_debt-is_ledger :
      (caller j vault_id : Bytes) (debt held block : ℕ) (s : StateDb)
      → is_ledger caller j ≡ true
      → slot j (absorb_debt vault_id debt held block s).1 ≡ slot j s
  unfolding absorb_debt slot put
  absorb_debt-is_ledger caller j vault_id debt held block s e = ground (
    arith,
    slot-put j two_way_balance (abs_diff held debt) s,
    reward_and_log-is_ledger caller j vault_id debt block
        (put two_way_balance (abs_diff held debt) s) e,
  )

  -- The absorption of a debt keeps the ledger.
  pub stability_absorb-is_ledger :
      (input caller j : Bytes) (block : ℕ) (s : StateDb)
      → is_ledger caller j ≡ true
      → slot j (stability_absorb input caller block s).1 ≡ slot j s
  unfolding stability_absorb get_vault_debt slot
  stability_absorb-is_ledger input caller j block s e = ground (
    arith,
    slot-touch j vault_addr s,
    slot-touch j pool_addr (touch vault_addr s),
    absorb_debt-is_ledger caller j (slice input 4 36)
        (sload vault_addr (debt_key (slice input 4 36)) (touch vault_addr s))
        (slot two_way_balance (touch pool_addr (touch vault_addr s))) block
        (touch pool_addr (touch vault_addr s)) e,
  )

  stability_claim_rewards-outcome :
      (input caller : Bytes) (block : ℕ) (s : StateDb)
      → (stability_claim_rewards input caller block s).0 ≡ (
          let pending = slot (reward_slot caller) s + slot (lp_fee_slot caller) s in
          if ltb 0 pending
          then (if ltb pending (2 ^ 256) then ok (word pending) else panic)
          else err no_rewards)
  unfolding stability_claim_rewards slot
  stability_claim_rewards-outcome input caller block s = ground (
    arith,
    slot-touch (reward_slot caller) pool_addr s,
    slot-touch (lp_fee_slot caller) pool_addr s,
  )

  -- A claim pays the caller's rewards and fees together where they are positive and fit 32 bytes,
  -- panics where they do not fit, and is refused where they are zero. A claim that is not refused
  -- sets the caller's two slots and the three buckets of the whole pool to zero, and no other slot
  -- changes.
  pub stability_claim_rewards_exact :
      (input caller : Bytes) (block : ℕ) (s : StateDb)
      → let pending = slot (reward_slot caller) s + slot (lp_fee_slot caller) s in
        let cleared = λ (j : Bytes).
          bytes_eq (reward_slot caller) j
          || bytes_eq (lp_fee_slot caller) j
          || bytes_eq total_rewards j
          || bytes_eq way_rewards j
          || bytes_eq sway_rewards j in
        ((stability_claim_rewards input caller block s).0 ≡ (
          if ltb 0 pending
          then (if ltb pending (2 ^ 256) then ok (word pending) else panic)
          else err no_rewards))
        × ((j : Bytes)
            → slot j (stability_claim_rewards input caller block s).1
              ≡ (if ltb 0 pending && cleared j then 0 else slot j s))
  stability_claim_rewards_exact input caller block s = (
    stability_claim_rewards-outcome input caller block s,
    λ j. ground (
      arith,
      stability_claim_rewards-state input caller block s,
      slot-add_log j pool_addr (storage_key (codes "RewardsClaimed") ∷ storage_key caller ∷ [])
          (big_bytes (
            slot (reward_slot caller) (touch pool_addr s)
            + slot (lp_fee_slot caller) (touch pool_addr s)))
          block (after_claim caller s),
      slot-after_claim caller j s,
      slot-touch j pool_addr s,
      slot-touch (reward_slot caller) pool_addr s,
      slot-touch (lp_fee_slot caller) pool_addr s,
    ),
  )
