-- ===== src/Staking.antt =====
-- progressive_staking.go: the rewards of the validators, a capped emission split by progressive brackets,
-- and the treasury's share. The arithmetic on `float64`s is a parameter, `Floats`: a result of it that
-- becomes a number again is what `to_uint64` says. The live inflation rate of evm/inflation.go, a
-- variable of the package, is passed in as `pct`. The order of a list stands for that of Go's `range`.
-- `EffectiveAPY` and the printed tables are left out.
pub mod Caps
pub mod Hundredths
mod Tests
use waychain_consensus.Prelude.{
  ℕ, ◌+◌, ◌*◌, ◌-◌, ◌/◌, ◌%◌, ◌^◌, Bool, true, false, ◌&&◌, List, [], ◌∷◌, Option, none, some, ltb,
  leb, ◌==◌, if◌then◌else◌, lookup, insert, erase, contains_key, nat_eq,
}
use waychain_consensus.Validators.{ValidatorId, min_stake}

pub record Floats : Type 1 where
  pub F : Type 0
  pub from_uint64 : ℕ → F
  pub to_uint64 : F → ℕ
  pub ratio : ℕ → ℕ → F
  pub max_float : F
  pub add : F → F → F
  pub sub : F → F → F
  pub mul : F → F → F
  pub div : F → F → F
  pub min_f : F → F → F
  pub le_zero : F → Bool
  pub lt_f : F → F → Bool

-- `StakingBracket`: the rate as a fraction of 100, and 0 for no upper bound.
pub record StakingBracket : Type 0 where
  pub min_tokens : ℕ
  pub max_tokens : ℕ
  pub percent : ℕ

abbrev bracket : ℕ → ℕ → ℕ → StakingBracket
bracket lo hi percent = record { min_tokens = lo; max_tokens = hi; percent = percent }

-- `ProgressiveStakingBrackets`
abbrev pub progressive_staking_brackets : List StakingBracket
progressive_staking_brackets =
    bracket 1 1001 15
    ∷ bracket 1001 10001 8
    ∷ bracket 10001 100001 4
    ∷ bracket 100001 1000001 2
    ∷ bracket 1000001 0 1
    ∷ []

pub record ValidatorReward : Type 0 where
  pub staked_amount : ℕ
  pub reward_per_block : ℕ
  pub accumulated : ℕ
  pub last_update_block : ℕ

abbrev pub way_total_supply : ℕ
way_total_supply = 100000000

abbrev pub quest_treasury_share_pct : ℕ
quest_treasury_share_pct = 15

-- `TreasuryShareOf`
abbrev pub treasury_share_of : ℕ → ℕ
treasury_share_of amount = amount * quest_treasury_share_pct % 2 ^ 64 / 100

-- The sum of the entries, as a `uint64`.
unfoldable pub sum_of : List (ValidatorId × ℕ) → ℕ
sum_of [] = 0
sum_of ((id, n) ∷ xs) = (n + sum_of xs) % 2 ^ 64

-- The split of what is available: a share that rounds to zero is no entry.
unfoldable pub split_reward : ℕ → ℕ → List (ValidatorId × ℕ) → List (ValidatorId × ℕ)
split_reward available total [] = []
split_reward available total ((id, annual) ∷ rewards) =
    let rest = split_reward available total rewards in
    let share = available * annual % 2 ^ 64 / total in
    if share == 0 then rest else (id, share) ∷ rest

-- `vr.Accumulated += blockReward`
unfoldable pub accumulate :
    List (ValidatorId × ℕ)
    → List (ValidatorId × ValidatorReward)
    → List (ValidatorId × ValidatorReward)
accumulate [] rewards = rewards
accumulate ((id, n) ∷ xs) rewards = accumulate xs (elim (lookup id rewards) [
  | none ↦ rewards
  | some vr ↦ insert id (record vr { accumulated = (vr.accumulated + n) % 2 ^ 64 }) rewards
])

-- The tokens that a block may pay, under the cap of the epoch.
unfoldable pub available_under : ℕ → ℕ → ℕ → ℕ
available_under cap minted candidate =
    if ltb 0 cap && leb cap minted
    then 0
    else if ltb 0 cap && ltb cap ((minted + candidate) % 2 ^ 64)
    then cap - minted
    else candidate

module _ (fl : Floats) where
  open fl use {
    F, from_uint64, to_uint64, ratio, max_float, add, sub, mul, div, min_f, le_zero, lt_f,
  }

  pub record ProgressiveStaking : Type 0 where
    pub annual_inflation_pct : F
    pub block_time_sec : F
    pub validator_rewards : List (ValidatorId × ValidatorReward)
    pub total_staked : ℕ
    pub current_block : ℕ
    pub accrued : F
    pub epoch_minted : ℕ
    pub epoch_length : ℕ

  -- `blocksPerYear`
  abbrev pub blocks_per_year : F → F
  blocks_per_year time = div (from_uint64 31536000) time

  -- `NewProgressiveStaking`
  unfoldable pub new_progressive_staking : F → F → ℕ → ProgressiveStaking
  new_progressive_staking pct time length = record {
    annual_inflation_pct = if le_zero pct then from_uint64 7 else pct;
    block_time_sec = if le_zero time then from_uint64 3 else time;
    validator_rewards = [];
    total_staked = 0;
    current_block = 0;
    accrued = from_uint64 0;
    epoch_minted = 0;
    epoch_length = length;
  }

  -- `AnnualEmission`
  abbrev pub annual_emission : F → ℕ
  annual_emission pct = to_uint64 (div (mul (from_uint64 way_total_supply) pct) (from_uint64 100))

  -- `PerBlockEmission`
  abbrev pub per_block_emission : F → ProgressiveStaking → F
  per_block_emission pct ps =
      div (from_uint64 (annual_emission pct)) (blocks_per_year ps.block_time_sec)

  -- `EpochCap`
  unfoldable pub epoch_cap : F → ProgressiveStaking → ℕ
  epoch_cap pct ps =
      let epochs = div (blocks_per_year ps.block_time_sec) (from_uint64 ps.epoch_length) in
      if ps.epoch_length == 0
      then annual_emission pct
      else if le_zero epochs
      then annual_emission pct
      else to_uint64 (div (from_uint64 (annual_emission pct)) epochs)

  -- The loop of `CalculateReward`, with whether the bracket is the first one.
  unfoldable pub reward_from : Bool → List StakingBracket → F → F → F → F
  reward_from first [] annual remaining lower_bound = annual
  reward_from first (b ∷ bs) annual remaining lower_bound =
      let upper =
        if (b.max_tokens == 0) && not_first then max_float else from_uint64 b.max_tokens in
      let lower = if first then sub (from_uint64 b.min_tokens) (from_uint64 1) else lower_bound in
      let tokens = min_f remaining (sub upper lower) in
      let rest =
        reward_from false bs (add annual (mul tokens (ratio b.percent 100))) (sub remaining tokens)
          upper in
      if le_zero remaining then annual else if le_zero tokens then annual else rest
    where
      not_first : Bool
      not_first = if first then false else true

  -- `CalculateReward`; the conversion drops the fraction, as `Floor` before it does.
  unfoldable pub calculate_reward : ℕ → ℕ
  unfolding reward_from
  calculate_reward stake =
      if ltb stake min_stake
      then 0
      else to_uint64 (
          reward_from true progressive_staking_brackets (from_uint64 0) (from_uint64 stake)
            (from_uint64 0))

  -- `PerBlockReward`
  abbrev pub per_block_reward : ℕ → ℕ
  per_block_reward stake = calculate_reward stake / 31536000

  -- `RegisterStake`
  unfoldable pub register_stake : ValidatorId → ℕ → ProgressiveStaking → ProgressiveStaking
  register_stake id amount ps = elim (lookup id ps.validator_rewards) [
    | some vr ↦ record ps {
      validator_rewards = insert id (record vr { staked_amount = amount }) ps.validator_rewards;
      total_staked = (ps.total_staked + 2 ^ 64 - vr.staked_amount + amount) % 2 ^ 64;
    }
    | none ↦ record ps {
      validator_rewards =
          insert id
            (record {
              staked_amount = amount;
              reward_per_block = 0;
              accumulated = 0;
              last_update_block = ps.current_block;
            })
            ps.validator_rewards;
      total_staked = (ps.total_staked + amount) % 2 ^ 64;
    }
  ]

  -- `RemoveStake`
  unfoldable pub remove_stake : ValidatorId → ProgressiveStaking → ProgressiveStaking
  remove_stake id ps = elim (lookup id ps.validator_rewards) [
    | none ↦ ps
    | some vr ↦ record ps {
      validator_rewards = erase id ps.validator_rewards;
      total_staked = (ps.total_staked + 2 ^ 64 - vr.staked_amount) % 2 ^ 64;
    }
  ]

  -- The annual reward of each validator.
  unfoldable pub annual_rewards : List (ValidatorId × ValidatorReward) → List (ValidatorId × ℕ)
  unfolding calculate_reward
  annual_rewards [] = []
  annual_rewards ((id, vr) ∷ vrs) = (id, calculate_reward vr.staked_amount) ∷ annual_rewards vrs

  -- The end of `DistributeBlockReward`: what is paid leaves the accrual and counts for the epoch.
  unfoldable pub pay_out : List (ValidatorId × ℕ) → ProgressiveStaking → ProgressiveStaking
  unfolding sum_of accumulate
  pay_out paid before =
      let ps = record before { validator_rewards = accumulate paid before.validator_rewards } in
      if sum_of paid == 0 then ps else record ps {
        accrued = sub ps.accrued (from_uint64 (sum_of paid));
        epoch_minted = (ps.epoch_minted + sum_of paid) % 2 ^ 64;
      }

  -- `DistributeBlockReward`; where nothing is available, every share is zero.
  unfoldable pub distribute_block_reward :
      F → ℕ → ProgressiveStaking → List (ValidatorId × ℕ) × ProgressiveStaking
  unfolding annual_rewards sum_of epoch_cap available_under split_reward pay_out
  distribute_block_reward pct height before =
      let ps = record before { current_block = height } in
      let rewards = annual_rewards ps.validator_rewards in
      let total = sum_of rewards in
      let accruing = record ps { accrued = add ps.accrued (per_block_emission pct ps) } in
      let available =
        available_under (epoch_cap pct ps) ps.epoch_minted (to_uint64 accruing.accrued) in
      let paid = split_reward available total rewards in
      if total == 0
      then ([], ps)
      else if available == 0
      then ([], accruing)
      else (paid, pay_out paid accruing)

  -- `RolloverEpoch`
  abbrev pub rollover_epoch : ProgressiveStaking → ProgressiveStaking
  rollover_epoch ps = record ps { epoch_minted = 0 }

  -- `ClaimReward`
  unfoldable pub claim_reward : ValidatorId → ProgressiveStaking → ℕ × ProgressiveStaking
  claim_reward id ps = elim (lookup id ps.validator_rewards) [
    | none ↦ (0, ps)
    | some vr ↦ (
      vr.accumulated,
      record ps {
        validator_rewards = insert id (record vr { accumulated = 0 }) ps.validator_rewards;
      },
    )
  ]
