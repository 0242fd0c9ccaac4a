-- ===== src/Engine/Tests.antt =====
-- Runs of the engine, and the theorems at concrete inputs.
use waychain_consensus.Prelude.{
  ℕ, ◌+◌, ◌/◌, ◌≡◌, refl, [], ◌∷◌, arith, leb, ltb, lookup_or, bytes_key, nat_eq, length,
}
use waychain_consensus.Prelude.Int.{pos}
use waychain_consensus.Hashing.{plain_digest}
use waychain_consensus.Validators.{ValidatorSet}
use waychain_consensus.Validators.Order.{mem}
use waychain_consensus.Types.{Block}
use waychain_consensus.Engine.{
  Floats, Engine, new_consensus_engine, select_new_epoch, is_validator_active,
}
use waychain_consensus.Engine.Epoch.{select_new_epoch-exact}

-- Whole numbers in place of floats.
abbrev whole : Floats
whole = record {
  F = ℕ;
  zero_f = 0;
  from_uint64 = λ n. n;
  add = λ a b. a + b;
  div = λ a b. a / b;
  halve = λ a. a / 2;
  le_f = leb;
  gt_f = λ a b. ltb b a;
}

abbrev two_validators : ValidatorSet
two_validators = record {
  ids = 1 ∷ 2 ∷ [];
  stakes = (1, 100) ∷ (2, 900) ∷ [];
  missed = [];
  jailed = [];
}

abbrev started : Engine
started = record {
  current_height = 4;
  current_round = 0;
  validators = two_validators;
  active_set = [];
  voting_power = [];
  total_power = 0;
  blocks = [];
  random_seed = [];
}

abbrev running : Engine
running = record started { active_set = 2 ∷ 1 ∷ []; total_power = 2 }

abbrev block_five : Block
block_five = record {
  height = 5;
  proposer = 1;
  timestamp = pos 0;
  prev_hash = [];
  transactions = [];
  state_root = [];
  hash = 1 ∷ 2 ∷ 3 ∷ 4 ∷ [];
  logs = [];
}

-- The heavier stake comes first.
new_consensus_engine-order : (new_consensus_engine whole two_validators).active_set ≡ 2 ∷ 1 ∷ []
unfolding new_consensus_engine lookup_or
new_consensus_engine-order = refl

select_new_epoch-exact_example :
    let ce' = select_new_epoch whole started in
    (is_validator_active 2 ce' ≡ mem 2 (1 ∷ 2 ∷ []))
    × (length ce'.active_set ≡ 2)
    × (ce'.total_power ≡ 2)
    × (ce'.current_height ≡ 4)
select_new_epoch-exact_example = select_new_epoch-exact whole 2 started (omega arith)
