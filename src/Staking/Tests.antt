-- ===== src/Staking/Tests.antt =====
-- Runs of the staking rewards, and their theorem at a concrete input.
use waychain_consensus.Prelude.{◌+◌, ◌≤◌, ◌≡◌, arith, [], ◌∷◌}
use waychain_consensus.Staking.{
  ProgressiveStaking, annual_rewards, calculate_reward, reward_from, epoch_cap, per_block_emission,
  distribute_block_reward,
}
use waychain_consensus.Staking.Hundredths.{hundredths}
use waychain_consensus.Staking.Caps.{exact_sum, distribute_block_reward_capped}

-- Two validators, and five tokens of earlier blocks.
abbrev two_stakers : ProgressiveStaking hundredths
two_stakers = record {
  annual_inflation_pct = 700;
  block_time_sec = 300;
  validator_rewards =
      (
        1,
        record {
          staked_amount = 50000;
          reward_per_block = 0;
          accumulated = 0;
          last_update_block = 0;
        },
      )
      ∷ (
        2,
        record {
          staked_amount = 20000;
          reward_per_block = 0;
          accumulated = 0;
          last_update_block = 0;
        },
      )
      ∷ [];
  total_staked = 70000;
  current_block = 0;
  accrued = 500;
  epoch_minted = 6000;
  epoch_length = 10000;
}

distribute_block_reward_capped_example :
    let r = distribute_block_reward hundredths 700 1 two_stakers in
    (r.1.epoch_minted ≡ 6000 + exact_sum r.0)
    × (r.1.epoch_minted ≤ epoch_cap hundredths 700 two_stakers)
    × (exact_sum r.0
        ≤ hundredths.to_uint64 (hundredths.add 500 (per_block_emission hundredths 700 two_stakers)))
unfolding exact_sum annual_rewards calculate_reward reward_from epoch_cap
distribute_block_reward_capped_example =
    distribute_block_reward_capped hundredths 700 1 two_stakers (omega arith) (omega arith)
      (omega arith) (omega arith)
