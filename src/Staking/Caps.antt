-- ===== src/Staking/Caps.antt =====
-- How much a block pays.
use native.Mathlib.Nat.{mul-div-le, mul-add, mul_comm, le_of_mul-le-mul_left}
use waychain_consensus.Prelude.{
  ℕ, ◌+◌, ◌*◌, ◌/◌, ◌%◌, ◌^◌, ◌≤◌, ◌<◌, ◌≡◌, refl, ap, List, [], ◌∷◌, arith,
}
use waychain_consensus.Validators.{ValidatorId}
use waychain_consensus.Staking.{
  Floats, ProgressiveStaking, sum_of, split_reward, available_under, pay_out, annual_rewards,
  epoch_cap, per_block_emission, distribute_block_reward,
}

-- The sum without the wrap-around.
unfoldable pub exact_sum : List (ValidatorId × ℕ) → ℕ
exact_sum [] = 0
exact_sum ((id, n) ∷ xs) = n + exact_sum xs

sum_of-exact_sum : (xs : List (ValidatorId × ℕ)) → exact_sum xs < 2 ^ 64 → sum_of xs ≡ exact_sum xs
unfolding sum_of exact_sum
sum_of-exact_sum [] small = refl
sum_of-exact_sum ((id, n) ∷ xs) small = omega (arith, sum_of-exact_sum xs (omega arith))

share_le :
    (available annual total : ℕ)
    → total * (available * annual % 2 ^ 64 / total) ≤ available * annual
share_le available annual total = omega (arith, mul-div-le (available * annual % 2 ^ 64) total)

-- A share that is left out is zero.
exact_sum-split_reward :
    (available total n : ℕ) (id : ValidatorId) (xs : List (ValidatorId × ℕ))
    → exact_sum (split_reward available total ((id, n) ∷ xs))
      ≡ available * n % 2 ^ 64 / total + exact_sum (split_reward available total xs)
unfolding split_reward exact_sum
exact_sum-split_reward available total n id xs = ground arith

split_reward_le :
    (available total : ℕ) (xs : List (ValidatorId × ℕ))
    → total * exact_sum (split_reward available total xs) ≤ available * exact_sum xs
unfolding split_reward exact_sum
split_reward_le available total [] = ground arith
split_reward_le available total ((id, n) ∷ xs) = omega (
  arith,
  ap (λ x. total * x) (exact_sum-split_reward available total n id xs),
  share_le available n total,
  split_reward_le available total xs,
  mul-add total (available * n % 2 ^ 64 / total) (exact_sum (split_reward available total xs)),
  mul-add available n (exact_sum xs),
)

-- The shares of all of a positive total are at most what is available.
split_reward_bounded :
    (available : ℕ) (xs : List (ValidatorId × ℕ))
    → 0 < exact_sum xs
    → exact_sum (split_reward available (exact_sum xs) xs) ≤ available
split_reward_bounded available xs some_total =
    le_of_mul-le-mul_left
      (omega
        (arith, split_reward_le available (exact_sum xs) xs, mul_comm available (exact_sum xs)))
      some_total

available_under_bounded :
    (cap minted candidate : ℕ)
    → 0 < cap
    → minted ≤ cap
    → minted + candidate < 2 ^ 64
    → (minted + available_under cap minted candidate ≤ cap)
      × (available_under cap minted candidate ≤ candidate)
unfolding available_under
available_under_bounded cap minted candidate positive within small = ground arith

module _ (fl : Floats) where
  open fl use {F, to_uint64, add}

  -- Where the cap of the epoch is positive and not exceeded so far, and neither the sum of the
  -- annual rewards nor that of the minted and the accrued tokens reaches 2^64: the rewards of a
  -- block add up to what the epoch's counter grows by, to no more than the whole tokens accrued,
  -- and the counter stays within the cap. This holds for any arithmetic in place of the floats.
  pub distribute_block_reward_capped :
      (pct : F) (height : ℕ) (ps : ProgressiveStaking fl)
      → exact_sum (annual_rewards fl ps.validator_rewards) < 2 ^ 64
      → 0 < epoch_cap fl pct ps
      → ps.epoch_minted ≤ epoch_cap fl pct ps
      → ps.epoch_minted + to_uint64 (add ps.accrued (per_block_emission fl pct ps)) < 2 ^ 64
      → let r = distribute_block_reward fl pct height ps in
        (r.1.epoch_minted ≡ ps.epoch_minted + exact_sum r.0)
        × (r.1.epoch_minted ≤ epoch_cap fl pct ps)
        × (exact_sum r.0 ≤ to_uint64 (add ps.accrued (per_block_emission fl pct ps)))
  unfolding distribute_block_reward pay_out exact_sum epoch_cap
  distribute_block_reward_capped pct height ps no_wrap positive within small = ground (
    arith,
    sum_of-exact_sum rewards no_wrap,
    available_under_bounded cap ps.epoch_minted candidate positive within small,
    split_reward_bounded available rewards,
    sum_of-exact_sum (split_reward available (exact_sum rewards) rewards),
  )
    where
      rewards : List (ValidatorId × ℕ)
      rewards = annual_rewards fl ps.validator_rewards

      cap : ℕ
      cap = epoch_cap fl pct ps

      candidate : ℕ
      candidate = to_uint64 (add ps.accrued (per_block_emission fl pct ps))

      available : ℕ
      available = available_under cap ps.epoch_minted candidate
