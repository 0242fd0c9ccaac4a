-- ===== src/StabilityPool/Tests.antt =====
-- Runs of the pool, and its theorems at concrete inputs.
use waychain_consensus.Prelude.{
  ◌+◌, ◌^◌, ok, err, panic, ltb, ℕ, ◌≤◌, ◌≡◌, refl, List, [], ◌∷◌, some, codes, Bytes, arith, is_ok,
  if◌then◌else◌, ◌&&◌, ◌||◌, bytes_eq, lookup_or, insert, true, be_value,
}
use waychain_consensus.Hashing.{plain_digest}
use waychain_consensus.State.{StateDb, new_state_db}
use waychain_consensus.State.{touch, account_at, add_log}
use waychain_consensus.State.Storage.{sload, sstore}
use waychain_consensus.Precompile.{storage_key, word, be_bytes, abs_diff, read_slot, selector_bytes}
use waychain_consensus.StabilityPool.{
  reward_slot, lp_fee_slot, total_rewards, way_rewards, sway_rewards, stability_claim_rewards,
  no_rewards, pool_addr, stability_pool_precompile, deposit_slot, total_deposits, two_way_balance,
  stability_deposit, stability_withdraw,
}
use waychain_consensus.StabilityPool.Rewards.{stability_claim_rewards_exact}
use waychain_consensus.StabilityPool.Moves.{slot}
use waychain_consensus.StabilityPool.Backing.{deposits_of, all_distinct, has_user}
use waychain_consensus.StabilityPool.Calls.{PoolCall, pool_call, run, panics}
use waychain_consensus.StabilityPool.Ledger.{
  may_withdraw, stability_withdraw_exact, run-new_state_db-IsBacked,
}

abbrev deposit_input : ℕ → Bytes
deposit_input n = 78 ∷ 38 ∷ 96 ∷ 154 ∷ be_bytes 32 n

abbrev withdraw_input : ℕ → Bytes
withdraw_input n = 46 ∷ 26 ∷ 125 ∷ 221 ∷ be_bytes 32 n

abbrev ann : Bytes
ann = codes "ann"

abbrev deposited : StateDb
deposited = (stability_deposit (deposit_input 50) ann 1 new_state_db).1

deposited_slots :
    (slot (deposit_slot ann) deposited ≡ 50)
    × (slot total_deposits deposited ≡ 50)
    × (slot two_way_balance deposited ≡ 50)
unfolding slot sload lookup_or account_at stability_deposit be_bytes read_slot touch insert bytes_eq
    pool_addr sstore add_log
deposited_slots = (refl, refl, refl)

stability_withdraw_exact_example :
    (is_ok (stability_withdraw (withdraw_input 20) ann 2 deposited).0
      ≡ may_withdraw (withdraw_input 20) ann deposited)
    × ((j : Bytes)
        → slot j (stability_withdraw (withdraw_input 20) ann 2 deposited).1 ≡ (
            if may_withdraw (withdraw_input 20) ann deposited
              && (bytes_eq (deposit_slot ann) j
                  || bytes_eq total_deposits j
                  || bytes_eq two_way_balance j)
            then abs_diff (slot j deposited) (read_slot (withdraw_input 20) 4)
            else slot j deposited))
stability_withdraw_exact_example =
    stability_withdraw_exact (withdraw_input 20) ann 2 deposited (omega (arith, deposited_slots.1))
      (omega (arith, deposited_slots.2)) (omega (arith, deposited_slots.0))

-- The withdrawal of this example is accepted.
may_withdraw_test : may_withdraw (withdraw_input 20) ann deposited ≡ true
unfolding may_withdraw slot sload lookup_or account_at stability_deposit be_bytes read_slot touch
    insert bytes_eq pool_addr sstore add_log
may_withdraw_test = refl

abbrev calls : List PoolCall
calls = pool_call (deposit_input 50) ann 1 ∷ pool_call (withdraw_input 20) ann 2 ∷ []

abbrev withdrawn : StateDb
withdrawn = (stability_withdraw (withdraw_input 20) ann 2 deposited).1

run-calls : run calls new_state_db ≡ some withdrawn
unfolding run panics stability_pool_precompile stability_withdraw selector_bytes be_value slot sload
    lookup_or account_at stability_deposit be_bytes read_slot touch insert bytes_eq pool_addr sstore
    add_log
run-calls = refl

run-new_state_db-IsBacked_example :
    deposits_of (ann ∷ codes "bob" ∷ []) withdrawn ≤ slot total_deposits withdrawn
unfolding all_distinct has_user bytes_eq
run-new_state_db-IsBacked_example =
    run-new_state_db-IsBacked calls withdrawn run-calls (ann ∷ codes "bob" ∷ []) refl

-- A state in which a reward of 30 waits for Ann.
abbrev rewarded : StateDb
rewarded = sstore pool_addr (storage_key (reward_slot ann)) 30 new_state_db

stability_claim_rewards_exact_example :
    let pending = slot (reward_slot ann) rewarded + slot (lp_fee_slot ann) rewarded in
    let cleared = λ (j : Bytes).
      bytes_eq (reward_slot ann) j
      || bytes_eq (lp_fee_slot ann) j
      || bytes_eq total_rewards j
      || bytes_eq way_rewards j
      || bytes_eq sway_rewards j in
    ((stability_claim_rewards [] ann 3 rewarded).0 ≡ (
      if ltb 0 pending
      then (if ltb pending (2 ^ 256) then ok (word pending) else panic)
      else err no_rewards))
    × ((j : Bytes)
        → slot j (stability_claim_rewards [] ann 3 rewarded).1
          ≡ (if ltb 0 pending && cleared j then 0 else slot j rewarded))
stability_claim_rewards_exact_example = stability_claim_rewards_exact [] ann 3 rewarded
