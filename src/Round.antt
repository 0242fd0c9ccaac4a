-- ===== src/Round.antt =====
-- consensus_round.go: the round manager of a node, which proposes blocks, counts prevotes and
-- precommits, commits and times out.
-- The chain is behind `BlockProducer`, the one call that the manager makes of it. Of the P2P node it
-- uses the identity, the sequence counter and `Broadcast`; `sent` is the sequence of what it
-- broadcast. `timer` says whether the round's timeout is armed; that the timer fires is a call of
-- `handle_timeout`. The lock makes each handler one step, so it has no part in the model; the ticker
-- and the channel of the loop, `StartedAt`, and the printing are left out.
pub mod Counting
pub mod Commit
pub mod Quorum
pub mod Precommits
mod Tests
use waychain_consensus.Prelude.{
  ℕ, ◌+◌, ◌*◌, ◌/◌, ◌%◌, ◌^◌, ◌≡◌, Bool, true, false, ◌&&◌, List, [], ◌∷◌, ◌++◌, Option, none, some,
  leb, ◌==◌, if◌then◌else◌, Bytes, bytes_key, codes, take, insert, length,
}
use waychain_consensus.Prelude.Decimal.{decimal}
use waychain_consensus.Prelude.Hex.{hex}
use waychain_consensus.Hashing.{Sha256}
use waychain_consensus.Validators.{ValidatorId, id_string, new_validator_id}
use waychain_consensus.Types.{Block, Vote}
use waychain_consensus.Engine.{
  Engine, phase_propose, phase_commit, phase_timeout, select_proposer, finalize_block,
}

pub record RoundState : Type 0 where
  pub height : ℕ
  pub round : ℕ
  pub phase : ℕ
  pub proposer : ValidatorId
  pub proposal : Option Block
  pub prevotes : List (Bytes × Vote)
  pub precommits : List (Bytes × Vote)
  pub prevote_power : ℕ
  pub precommit_power : ℕ
  pub timer : Bool

abbrev pub msg_block : ℕ
msg_block = 2

abbrev pub msg_vote : ℕ
msg_vote = 3

pub record P2pMessage : Type 0 where
  pub type : ℕ
  pub payload : Bytes
  pub from : Bytes
  pub seq : ℕ

pub record P2pNode : Type 0 where
  pub id : Bytes
  pub seq : ℕ
  pub sent : List P2pMessage

pub record BlockProducer : Type 1 where
  pub Chain : Type 0
  pub produce_block : ValidatorId → Chain → Option Block × Chain

-- `validator[:4]`
abbrev first_four : ValidatorId → Bytes
first_four id =
    (id / 2 ^ 152 % 256) ∷ (id / 2 ^ 144 % 256) ∷ (id / 2 ^ 136 % 256) ∷ (id / 2 ^ 128 % 256) ∷ []

pub serialize_block : Block → Bytes
unfolding hex
serialize_block b =
    codes "block:"
    ++ decimal b.height
    ++ codes ":"
    ++ hex (take 4 b.hash)
    ++ codes ":"
    ++ decimal (length b.transactions)

pub serialize_vote : Vote → Bytes
unfolding hex
serialize_vote v =
    codes "vote:"
    ++ decimal v.height
    ++ codes ":"
    ++ decimal v.round
    ++ codes ":"
    ++ hex (take 4 v.block_hash)
    ++ codes ":"
    ++ hex (first_four v.validator)

-- `Seq: nextSeq()` and `Broadcast`
pub broadcast : ℕ → Bytes → P2pNode → P2pNode
broadcast type payload n = record n { seq = n.seq + 1; sent = n.sent ++ msg ∷ [] }
  where
    msg : P2pMessage
    msg = record { type = type; payload = payload; from = n.id; seq = n.seq + 1 }

-- `uint64(float64(TotalPower) * (2.0 / 3.0))`: for every power up to 2^50 the rounded product has the
-- integer part of the exact one.
abbrev pub commit_threshold : ℕ → ℕ
commit_threshold total = total * 2 / 3

-- `isLocalValidator`
abbrev pub is_local_validator : ValidatorId → Bool
is_local_validator id = id == new_validator_id 1

abbrev pub count_prevote : Bytes → Vote → RoundState → RoundState
count_prevote key v r = record r {
  prevotes = insert key v r.prevotes;
  prevote_power = r.prevote_power + 1;
}

abbrev pub count_precommit : Bytes → Vote → RoundState → RoundState
count_precommit key v r = record r {
  precommits = insert key v r.precommits;
  precommit_power = r.precommit_power + 1;
}

-- `FinalizeBlock` of the proposal, if there is one.
abbrev pub finalize_proposal : Option Block → Engine → Engine
finalize_proposal none ce = ce
finalize_proposal (some b) ce = finalize_block b ce

abbrev pub own_vote : ℕ → ℕ → Bytes → ValidatorId → ℕ → Vote
own_vote height round block_hash voter vote_type = record {
  height = height;
  round = round;
  block_hash = block_hash;
  validator = voter;
  vote_type = vote_type;
}

-- Whether the current round is the given round of the given height.
abbrev pub is_current : ℕ → ℕ → RoundState → Bool
is_current height round r = (r.height == height) && (r.round == round)

abbrev pub new_round : ℕ → ValidatorId → Block → RoundState
new_round height proposer b = record {
  height = height;
  round = 0;
  phase = phase_propose;
  proposer = proposer;
  proposal = some b;
  prevotes = [];
  precommits = [];
  prevote_power = 0;
  precommit_power = 0;
  timer = false;
}

module _ (bp : BlockProducer) where
  open bp use {Chain, produce_block}

  pub record Manager : Type 0 where
    pub engine : Engine
    pub p2p_node : Option P2pNode
    pub chain : Chain
    pub current_round : Option RoundState

  -- `NewConsensusManager`
  pub new_consensus_manager : Engine → Option P2pNode → Chain → Manager
  new_consensus_manager engine p2p_node chain = record {
    engine = engine;
    p2p_node = p2p_node;
    chain = chain;
    current_round = none;
  }

  pub send : ℕ → Bytes → Manager → Manager
  unfolding broadcast
  send type payload cm = elim cm.p2p_node [
    | none ↦ cm
    | some n ↦ record cm { p2p_node = some (broadcast type payload n) }
  ]

  pub broadcast_proposal : RoundState → Manager → Manager
  unfolding send
  broadcast_proposal r cm = elim r.proposal [
    | none ↦ cm
    | some b ↦ send msg_block (serialize_block b) cm
  ]

  pub broadcast_vote : Vote → Manager → Manager
  unfolding send
  broadcast_vote v cm = send msg_vote (serialize_vote v) cm

  abbrev pub with_round : RoundState → Manager → Manager
  with_round r cm = record cm { current_round = some r }

  -- The commit of `checkCommitLocked`, once the threshold is reached.
  abbrev pub commit : RoundState → Manager → Manager
  commit r cm = record cm {
    engine = finalize_proposal r.proposal cm.engine;
    current_round = some (record r { phase = phase_commit; timer = false });
  }

  pub check_commit_locked : Manager → Manager
  check_commit_locked cm = elim cm.current_round [
    | none ↦ cm
    | some r ↦
        if leb (commit_threshold cm.engine.total_power) r.precommit_power then commit r cm else cm
  ]

  pub prevote : ℕ → ℕ → Bytes → ValidatorId → Manager → Manager
  unfolding broadcast_vote
  prevote height round block_hash voter cm =
      let vote = own_vote height round block_hash voter 1 in
      broadcast_vote vote (elim cm.current_round [
        | none ↦ cm
        | some r ↦
            if is_current height round r
            then with_round (count_prevote (id_string voter) vote r) cm
            else cm
      ])

  pub precommit : ℕ → ℕ → Bytes → ValidatorId → Manager → Manager
  unfolding broadcast_vote check_commit_locked
  precommit height round block_hash voter cm =
      let vote = own_vote height round block_hash voter 2 in
      check_commit_locked (
        broadcast_vote vote (elim cm.current_round [
          | none ↦ cm
          | some r ↦
              if is_current height round r
              then with_round (count_precommit (id_string voter) vote r) cm
              else cm
        ]))

  -- A received vote that is for the height of the current round.
  pub count_vote : Vote → Bytes → RoundState → Manager → Manager
  unfolding check_commit_locked
  count_vote v from r cm =
      if v.vote_type == 1
      then with_round (count_prevote from v r) cm
      else if v.vote_type == 2
      then check_commit_locked (with_round (count_precommit (id_string v.validator) v r) cm)
      else cm

  -- `none` is a message that holds no `Vote`.
  pub handle_vote : Option Vote → Bytes → Manager → Manager
  unfolding count_vote
  handle_vote none from cm = cm
  handle_vote (some v) from cm = elim cm.current_round [
    | none ↦ cm
    | some r ↦ if r.height == v.height then count_vote v from r cm else cm
  ]

  pub handle_timeout : ℕ → ℕ → Manager → Manager
  handle_timeout height round cm = elim cm.current_round [
    | none ↦ cm
    | some r ↦ if r.height == height then with_round (record r { phase = phase_timeout }) cm else cm
  ]

  -- After `ProduceBlock` has returned a block: the round starts, the proposal goes out, the timer is
  -- armed, and the proposer, if it is this node, prevotes. This is one step here; `proposeBlock`
  -- releases the lock once the round is installed, before the timer and the prevote.
  pub start_round : ℕ → ValidatorId → Block → Manager → Manager
  unfolding broadcast_proposal prevote
  start_round height proposer b cm =
      let r = new_round height proposer b in
      let cm₁ = broadcast_proposal r (with_round r cm) in
      let cm₂ = with_round (record r { timer = true }) cm₁ in
      if is_local_validator proposer then prevote height 0 b.hash proposer cm₂ else cm₂

  pub propose_block : ℕ → ValidatorId → Manager → Manager
  unfolding start_round
  propose_block height proposer cm =
      let (produced, chain') = produce_block proposer cm.chain in
      let cm' = record cm { chain = chain' } in
      elim produced [ none ↦ cm' | some b ↦ start_round height proposer b cm' ]

  pub run_block_round : ⦃h : Sha256⦄ → Manager → Manager
  unfolding propose_block
  run_block_round ⦃h⦄ cm =
      let height = cm.engine.current_height + 1 in
      elim (select_proposer height cm.engine) [
        | none ↦ cm
        | some v ↦ if is_local_validator v then propose_block height v cm else cm
      ]
