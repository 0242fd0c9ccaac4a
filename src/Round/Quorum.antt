-- ===== src/Round/Quorum.antt =====
-- How many votes a commit takes: the threshold against two thirds of the power, and repeated votes.
use waychain_consensus.Prelude.{
  ℕ, zero, suc, ◌+◌, ◌*◌, ◌≤◌, ◌<◌, ◌≡◌, refl, false, Option, none, some, arith, leb, ◌==◌,
  if◌then◌else◌, Bytes, bytes_key, nat_eq, lookup,
}
use waychain_consensus.Validators.{id_string}
use waychain_consensus.Types.{Block, Vote}
use waychain_consensus.Engine.{Engine, phase_commit, finalize_block}
use waychain_consensus.Engine.Finality.{finalize_block_exact}
use waychain_consensus.Round.{
  RoundState, BlockProducer, Manager, commit_threshold, count_prevote, count_precommit,
  finalize_proposal, check_commit_locked, handle_vote,
}
use waychain_consensus.Round.Commit.{handle_vote_exact}

finalize_proposal-total_power :
    (b : Option Block) (ce : Engine) → (finalize_proposal b ce).total_power ≡ ce.total_power
unfolding finalize_block
finalize_proposal-total_power none ce = refl
finalize_proposal-total_power (some b) ce = refl

module _ (bp : BlockProducer) where
  -- `n` deliveries of one message.
  pub deliver : ℕ → Vote → Bytes → Manager bp → Manager bp
  deliver zero v from cm = cm
  deliver (suc n) v from cm = handle_vote bp (some v) from (deliver n v from cm)

  -- The round after a counted precommit.
  abbrev counted : Vote → RoundState → Manager bp → RoundState
  counted v r cm =
      if leb (commit_threshold cm.engine.total_power) (r.precommit_power + 1)
      then record (count_precommit (id_string v.validator) v r) {
        phase = phase_commit;
        timer = false;
      }
      else count_precommit (id_string v.validator) v r

  -- What stays, and what grows, over `n` deliveries of a precommit for the current height.
  record Delivered (n : ℕ) (r : RoundState) (cm cm' : Manager bp) : Type 0 where
    now : RoundState
    running : cm'.current_round ≡ some now
    height : now.height ≡ r.height
    proposal : now.proposal ≡ r.proposal
    power : now.precommit_power ≡ r.precommit_power + n
    total : cm'.engine.total_power ≡ cm.engine.total_power

  module _ (v : Vote) (from : Bytes) (r : RoundState) (cm : Manager bp) (t : v.vote_type ≡ 2)
      (h : r.height ≡ v.height) where
    Delivered-suc :
        (n : ℕ) (cm₁ : Manager bp)
        → Delivered n r cm cm₁
        → Delivered (suc n) r cm (handle_vote bp (some v) from cm₁)
    Delivered-suc n cm₁ d = record {
      now = counted v d.now cm₁;
      running = ground (arith, handle_vote_exact bp v from d.now cm₁ d.running, d.height);
      height = ground (arith, d.height);
      proposal = ground (arith, d.proposal);
      power = ground (arith, d.power);
      total = ground (
        arith,
        handle_vote_exact bp v from d.now cm₁ d.running,
        d.height,
        d.total,
        finalize_proposal-total_power d.now.proposal cm₁.engine,
      );
    }

    deliver-Delivered : (n : ℕ) → cm.current_round ≡ some r → Delivered n r cm (deliver n v from cm)
    unfolding deliver
    deliver-Delivered zero e = record {
      now = r;
      running = e;
      height = refl;
      proposal = refl;
      power = omega arith;
      total = refl;
    }
    deliver-Delivered (suc n) e = Delivered-suc n (deliver n v from cm) (deliver-Delivered n e)

  -- One precommit message, received often enough, commits the proposal: if the power counted before
  -- and the number of deliveries together reach the threshold, the block is finalized, whatever
  -- block the vote names, whoever signed it, and whether or not its sender is an active validator.
  pub repeated_vote_commits :
      (n : ℕ) (v : Vote) (from : Bytes) (r : RoundState) (b : Block) (cm : Manager bp)
      → cm.current_round ≡ some r
      → r.proposal ≡ some b
      → v.vote_type ≡ 2
      → r.height ≡ v.height
      → commit_threshold cm.engine.total_power ≤ r.precommit_power + suc n
      → lookup b.height (deliver (suc n) v from cm).engine.blocks ≡ some b
  unfolding deliver
  repeated_vote_commits n v from r b cm e p t h enough =
      let d = deliver-Delivered v from r cm t h n e in
      let cm₁ = deliver n v from cm in
      ground (
        arith,
        handle_vote_exact bp v from d.now cm₁ d.running,
        d.height,
        d.proposal,
        d.power,
        d.total,
        finalize_block_exact b b.height cm₁.engine,
      )

  -- A precommit that leaves the power below the threshold finalizes nothing: the engine and the
  -- phase stay as they were.
  pub below_threshold_no_commit :
      (v : Vote) (from : Bytes) (r : RoundState) (cm : Manager bp)
      → cm.current_round ≡ some r
      → r.precommit_power + 1 < commit_threshold cm.engine.total_power
      → let cm' = handle_vote bp (some v) from cm in
        (cm'.engine ≡ cm.engine)
        × ((r' : RoundState) × (cm'.current_round ≡ some r') × (r'.phase ≡ r.phase))
  below_threshold_no_commit v from r cm e low =
      let step = handle_vote_exact bp v from r cm e in
      (
        ground (arith, step),
        (
          if r.height == v.height
              then if v.vote_type == 1
                then count_prevote from v r
                else if v.vote_type == 2
                then count_precommit (id_string v.validator) v r
                else r
              else r,
          ground (arith, step),
          ground arith,
        ),
      )

  -- The threshold is never more than two thirds of the total power, and a power that just reaches
  -- it commits: the proposal is finalized with at most, and never more than, two thirds of the
  -- power.
  pub threshold_commits :
      (r : RoundState) (b : Block) (cm : Manager bp)
      → cm.current_round ≡ some r
      → r.proposal ≡ some b
      → r.precommit_power ≡ commit_threshold cm.engine.total_power
      → (3 * r.precommit_power ≤ 2 * cm.engine.total_power)
        × (lookup b.height (check_commit_locked bp cm).engine.blocks ≡ some b)
  unfolding check_commit_locked
  threshold_commits r b cm e p at =
      (omega arith, ground (arith, finalize_block_exact b b.height cm.engine))
