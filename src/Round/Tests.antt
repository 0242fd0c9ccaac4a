-- ===== src/Round/Tests.antt =====
-- Runs of the round manager, and the theorems at concrete inputs.
use waychain_consensus.Prelude.{
  ℕ, ◌+◌, ◌≡◌, refl, [], ◌∷◌, some, none, arith, lookup, nat_eq, codes, hex2,
}
use waychain_consensus.Prelude.Decimal.{decimal}
use waychain_consensus.Prelude.Int.{pos}
use waychain_consensus.Hashing.{plain_digest}
use waychain_consensus.Validators.{id_string}
use waychain_consensus.Types.{Block, Vote}
use waychain_consensus.Engine.{Engine}
use waychain_consensus.Round.{
  RoundState, BlockProducer, Manager, new_consensus_manager, handle_vote, start_round,
  serialize_vote, count_precommit,
}
use waychain_consensus.Round.Commit.{after_precommit, handle_vote_exact}
use waychain_consensus.Round.Counting.{
  tick, message, timer_fires, run, IsSoundAt, started, start_round_exact,
  run-new_consensus_manager-IsSound,
}
use waychain_consensus.Round.Quorum.{deliver, repeated_vote_commits, below_threshold_no_commit}
use waychain_consensus.Round.Precommits.{only_precommits_finalize}

abbrev block_one : Block
block_one = record {
  height = 1;
  proposer = 1;
  timestamp = pos 0;
  prev_hash = [];
  transactions = [];
  state_root = [];
  hash = 9 ∷ 9 ∷ 9 ∷ 9 ∷ [];
  logs = [];
}

-- A chain that counts the blocks it has made.
abbrev counter_chain : BlockProducer
counter_chain = record { Chain = ℕ; produce_block = λ v n. (some block_one, n + 1) }

-- Four active validators, none of them the local node's own.
abbrev engine_of_four : Engine
engine_of_four = record {
  current_height = 0;
  current_round = 0;
  validators = record { ids = []; stakes = []; missed = []; jailed = [] };
  active_set = 1 ∷ 1 ∷ 1 ∷ 1 ∷ [];
  voting_power = [];
  total_power = 4;
  blocks = [];
  random_seed = [];
}

abbrev node : Manager counter_chain
node = record {
  engine = engine_of_four;
  p2p_node = some (record { id = codes "val-1"; seq = 0; sent = [] });
  chain = 0;
  current_round = none;
}

abbrev round_one : RoundState
round_one = started counter_chain 1 1 block_one

abbrev voting : Manager counter_chain
voting = record node { current_round = some round_one }

-- A precommit for another block, by somebody who is no validator.
abbrev stray : Vote
stray = record {
  height = 1;
  round = 7;
  block_hash = 0 ∷ 0 ∷ 0 ∷ 0 ∷ [];
  validator = 77;
  vote_type = 2;
}

-- The wire form of a vote: nothing tells a prevote from a precommit, and of a validator made by
-- `NewValidatorID` only zeros are sent.
serialize_vote-stray : serialize_vote stray ≡ codes "vote:1:7:00000000:00000000"
unfolding serialize_vote decimal hex2
serialize_vote-stray = refl

handle_vote_exact_example :
    handle_vote counter_chain (some stray) [] voting
    ≡ after_precommit counter_chain (count_precommit (id_string 77) stray round_one) voting
handle_vote_exact_example = handle_vote_exact counter_chain stray [] round_one voting refl

start_round_exact_example :
    let cm' = start_round counter_chain 1 1 block_one node in
    (cm'.current_round ≡ some round_one) × (cm'.engine ≡ engine_of_four) × (cm'.chain ≡ 0)
start_round_exact_example = start_round_exact counter_chain 1 1 block_one node

run-new_consensus_manager-IsSound_example :
    let cm =
      run counter_chain
        (tick ∷ message (some stray) [] ∷ timer_fires 1 0 ∷ [])
        (new_consensus_manager counter_chain engine_of_four none 0) in
    IsSoundAt cm.engine cm.current_round
run-new_consensus_manager-IsSound_example =
    run-new_consensus_manager-IsSound counter_chain engine_of_four none 0
      (tick ∷ message (some stray) [] ∷ timer_fires 1 0 ∷ [])

-- Two copies of one stray message finalize the block of a network of four.
repeated_vote_commits_example :
    lookup 1 (deliver counter_chain 2 stray [] voting).engine.blocks ≡ some block_one
repeated_vote_commits_example =
    repeated_vote_commits counter_chain 1 stray [] round_one block_one voting refl refl refl refl
      (omega arith)

below_threshold_no_commit_example :
    let cm' = handle_vote counter_chain (some stray) [] voting in
    (cm'.engine ≡ engine_of_four)
    × ((r' : RoundState) × (cm'.current_round ≡ some r') × (r'.phase ≡ 0))
below_threshold_no_commit_example =
    below_threshold_no_commit counter_chain stray [] round_one voting refl (omega arith)

abbrev half_voted : RoundState
half_voted = record round_one { precommit_power = 2 }

only_precommits_finalize_example :
    (run counter_chain
      (tick ∷ message (some (record stray { vote_type = 1 })) [] ∷ [])
      voting).engine
    ≡ engine_of_four
only_precommits_finalize_example =
    only_precommits_finalize counter_chain
      (tick ∷ message (some (record stray { vote_type = 1 })) [] ∷ []) voting (omega arith)
