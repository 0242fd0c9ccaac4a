-- ===== src/Round/Counting.antt =====
-- What holds of a node between two events, and what a block round does.
use waychain_consensus.Prelude.{
  ℕ, ◌+◌, ◌≤◌, ◌≡◌, inl, inr, true, false, List, [], ◌∷◌, Option, none, some, arith, leb, ◌==◌,
  if◌then◌else◌, Bytes, bytes_key, nat_eq, lookup, insert, length, length-insert, Option-cases,
  if_cases, sym,
}
use mathlib.Core.Path.{subst}
use waychain_consensus.Hashing.{Sha256}
use waychain_consensus.Validators.{ValidatorId, id_string}
use waychain_consensus.Types.{Block, Vote}
use waychain_consensus.Engine.{Engine, phase_commit, phase_timeout, select_proposer}
use waychain_consensus.Engine.Finality.{finalize_block_exact}
use waychain_consensus.Round.{
  RoundState, BlockProducer, Manager, P2pNode, new_consensus_manager, commit_threshold, send,
  broadcast_proposal, broadcast_vote, with_round, count_prevote, count_precommit, finalize_proposal,
  commit, prevote, handle_vote, handle_timeout, own_vote, is_local_validator, new_round,
  start_round, propose_block, run_block_round,
}
use waychain_consensus.Round.Commit.{after_precommit, handle_vote_exact}

-- Each counted vote has raised a power, so the powers are at least the numbers of distinct voters
-- recorded; a round that is in the commit phase has reached the threshold, and its proposal is the
-- block that the engine holds for that height.
pub record RoundIsSound (ce : Engine) (r : RoundState) : Type 0 where
  pub prevotes_counted : length r.prevotes ≤ r.prevote_power
  pub precommits_counted : length r.precommits ≤ r.precommit_power
  pub committed : r.phase ≡ phase_commit → commit_threshold ce.total_power ≤ r.precommit_power
  pub finalized :
      (b : Block)
      → r.phase ≡ phase_commit
      → r.proposal ≡ some b
      → lookup b.height ce.blocks ≡ some b

module _ (key : Bytes) (v : Vote) (ce : Engine) (r : RoundState) (h : RoundIsSound ce r) where
  count_prevote-RoundIsSound : RoundIsSound ce (count_prevote key v r)
  count_prevote-RoundIsSound = record {
    prevotes_counted = ground (arith, h.prevotes_counted, length-insert key v r.prevotes);
    precommits_counted = h.precommits_counted;
    committed = h.committed;
    finalized = h.finalized;
  }

  count_precommit-RoundIsSound : RoundIsSound ce (count_precommit key v r)
  count_precommit-RoundIsSound = record {
    prevotes_counted = h.prevotes_counted;
    precommits_counted = ground (arith, h.precommits_counted, length-insert key v r.precommits);
    committed = λ e. ground (arith, h.committed e);
    finalized = h.finalized;
  }

finalize_proposal-RoundIsSound :
    (ce : Engine) (r : RoundState)
    → RoundIsSound ce r
    → commit_threshold ce.total_power ≤ r.precommit_power
    → RoundIsSound
        (finalize_proposal r.proposal ce)
        (record r { phase = phase_commit; timer = false })
finalize_proposal-RoundIsSound ce r h enough = elim (Option-cases r.proposal) [
  | inl e ↦ rw e (record {
    prevotes_counted = h.prevotes_counted;
    precommits_counted = h.precommits_counted;
    committed = λ _. enough;
    finalized = λ b _ p. cc;
  })
  | inr (b, e) ↦ rw e (record {
    prevotes_counted = h.prevotes_counted;
    precommits_counted = h.precommits_counted;
    committed = λ _. ground (arith, finalize_block_exact b b.height ce);
    finalized = λ c _ p. ground (arith, finalize_block_exact b c.height ce);
  })
]

-- A node without a round is sound.
abbrev pub IsSoundAt : Engine → Option RoundState → Type 0
IsSoundAt ce none = Unit
IsSoundAt ce (some r) = RoundIsSound ce r

module _ (bp : BlockProducer) where
  open bp use {Chain, produce_block}

  abbrev pub IsSound : Manager bp → Type 0
  IsSound cm = IsSoundAt cm.engine cm.current_round

  send-engine :
      (t : ℕ) (p : Bytes) (cm : Manager bp)
      → ((send bp t p cm).engine ≡ cm.engine)
        × ((send bp t p cm).current_round ≡ cm.current_round)
        × ((send bp t p cm).chain ≡ cm.chain)
  unfolding send
  send-engine t p cm = ground arith

  -- The round that a proposal starts.
  abbrev pub started : ℕ → ValidatorId → Block → RoundState
  started height proposer b =
      let r = record (new_round height proposer b) { timer = true } in
      if is_local_validator proposer
      then count_prevote (id_string proposer) (own_vote height 0 b.hash proposer 1) r
      else r

  -- A proposal starts a fresh round for the block, with the timer armed, no precommit, and the
  -- proposer's own prevote if the proposer is this node; the engine and the chain stay as they were.
  pub start_round_exact :
      (height : ℕ) (proposer : ValidatorId) (b : Block) (cm : Manager bp)
      → let cm' = start_round bp height proposer b cm in
        (cm'.current_round ≡ some (started height proposer b))
        × (cm'.engine ≡ cm.engine)
        × (cm'.chain ≡ cm.chain)
  unfolding start_round broadcast_proposal broadcast_vote prevote send
  start_round_exact height proposer b cm = ground arith

  started-RoundIsSound :
      (height : ℕ) (proposer : ValidatorId) (b : Block) (ce : Engine)
      → RoundIsSound ce (started height proposer b)
  unfolding insert
  started-RoundIsSound height proposer b ce = record {
    prevotes_counted = ground arith;
    precommits_counted = ground arith;
    committed = λ p. ground arith;
    finalized = λ c p q. ground arith;
  }

  start_round-IsSound :
      (height : ℕ) (proposer : ValidatorId) (b : Block) (cm : Manager bp)
      → IsSound (start_round bp height proposer b cm)
  start_round-IsSound height proposer b cm =
      let (now, same, _) = start_round_exact height proposer b cm in
      rw (now, same) (started-RoundIsSound height proposer b cm.engine)

  after_precommit-IsSound :
      (r : RoundState) (cm : Manager bp)
      → RoundIsSound cm.engine r
      → IsSound (after_precommit bp r cm)
  after_precommit-IsSound r cm h =
      if_cases IsSound (leb (commit_threshold cm.engine.total_power) r.precommit_power)
        (commit bp r cm) (with_round bp r cm)
        (λ t. finalize_proposal-RoundIsSound cm.engine r h (ground arith)) (λ _. h)

  handle_vote-IsSound :
      (v : Option Vote) (from : Bytes) (cm : Manager bp)
      → IsSound cm
      → IsSound (handle_vote bp v from cm)
  unfolding handle_vote
  handle_vote-IsSound none from cm h = h
  handle_vote-IsSound (some v) from cm h = elim (Option-cases cm.current_round) [
    | inl e ↦ rw (e, handle_vote) h
    | inr (r, e) ↦
        let k = subst (IsSoundAt cm.engine) e h in
        subst IsSound (sym (handle_vote_exact bp v from r cm e)) (
          if_cases IsSound (r.height == v.height) _ _
            (λ _.
              if_cases IsSound (v.vote_type == 1) _ _
                (λ _. count_prevote-RoundIsSound from v cm.engine r k)
                (λ _.
                  if_cases IsSound (v.vote_type == 2) _ _
                    (λ _.
                      after_precommit-IsSound _ cm
                        (count_precommit-RoundIsSound (id_string v.validator) v cm.engine r k))
                    (λ _. h)))
            (λ _. h))
  ]

  handle_timeout-IsSound :
      (height round : ℕ) (cm : Manager bp)
      → IsSound cm
      → IsSound (handle_timeout bp height round cm)
  unfolding handle_timeout
  handle_timeout-IsSound height round cm h = elim (Option-cases cm.current_round) [
    | inl e ↦ rw (e, handle_timeout) h
    | inr (r, e) ↦
        let k = subst (IsSoundAt cm.engine) e h in
        rw (e, handle_timeout)
          (if_cases IsSound (r.height == height)
            (with_round bp (record r { phase = phase_timeout }) cm) cm
            (λ _. record {
              prevotes_counted = k.prevotes_counted;
              precommits_counted = k.precommits_counted;
              committed = λ p. ground arith;
              finalized = λ b p q. ground arith;
            })
            (λ _. h))
  ]

  propose_block-IsSound :
      (height : ℕ) (proposer : ValidatorId) (cm : Manager bp)
      → IsSound cm
      → IsSound (propose_block bp height proposer cm)
  unfolding propose_block
  propose_block-IsSound height proposer cm h =
      elim (Option-cases (produce_block proposer cm.chain).0) [
        | inl e ↦ rw (e, propose_block) h
        | inr (b, e) ↦
            rw (e, propose_block)
              (start_round-IsSound height proposer b
                (record cm { chain = (produce_block proposer cm.chain).1 }))
      ]

  run_block_round-IsSound :
      ⦃s : Sha256⦄ (cm : Manager bp) → IsSound cm → IsSound (run_block_round bp cm)
  unfolding run_block_round
  run_block_round-IsSound ⦃s⦄ cm h =
      elim (Option-cases (select_proposer (cm.engine.current_height + 1) cm.engine)) [
        | inl e ↦ rw (e, run_block_round) h
        | inr (v, e) ↦
            rw (e, run_block_round)
              (if_cases IsSound (is_local_validator v) _ cm
                (λ _. propose_block-IsSound (cm.engine.current_height + 1) v cm h) (λ _. h))
      ]

  -- What can happen to a running node: a tick of its loop, a message, or a timer that fires.
  pub data Event : Type 0 where
    tick : Event
    message : Option Vote → Bytes → Event
    timer_fires : ℕ → ℕ → Event

  unfoldable pub handle : ⦃s : Sha256⦄ → Event → Manager bp → Manager bp
  unfolding run_block_round handle_vote handle_timeout
  handle ⦃s⦄ tick cm = run_block_round bp cm
  handle ⦃s⦄ (message v from) cm = handle_vote bp v from cm
  handle ⦃s⦄ (timer_fires height round) cm = handle_timeout bp height round cm

  unfoldable pub run : ⦃s : Sha256⦄ → List Event → Manager bp → Manager bp
  unfolding handle
  run ⦃s⦄ [] cm = cm
  run ⦃s⦄ (e ∷ es) cm = run es (handle e cm)

  handle-IsSound : ⦃s : Sha256⦄ (e : Event) (cm : Manager bp) → IsSound cm → IsSound (handle e cm)
  unfolding handle
  handle-IsSound ⦃s⦄ tick cm h = run_block_round-IsSound cm h
  handle-IsSound ⦃s⦄ (message v from) cm h = handle_vote-IsSound v from cm h
  handle-IsSound ⦃s⦄ (timer_fires height round) cm h = handle_timeout-IsSound height round cm h

  run-IsSound : ⦃s : Sha256⦄ (es : List Event) (cm : Manager bp) → IsSound cm → IsSound (run es cm)
  unfolding run
  run-IsSound ⦃s⦄ [] cm h = h
  run-IsSound ⦃s⦄ (e ∷ es) cm h = run-IsSound es (handle e cm) (handle-IsSound e cm h)

  -- After any sequence of ticks, messages and timeouts on a new manager, with any chain behind it:
  -- the vote powers of the running round are at least the numbers of distinct voters recorded, and
  -- a round in the commit phase has reached the threshold and its proposal is the finalized block
  -- of its height.
  pub run-new_consensus_manager-IsSound :
      ⦃s : Sha256⦄ (ce : Engine) (node : Option P2pNode) (chain : Chain) (es : List Event)
      → IsSoundAt
          (run es (new_consensus_manager bp ce node chain)).engine
          (run es (new_consensus_manager bp ce node chain)).current_round
  unfolding new_consensus_manager
  run-new_consensus_manager-IsSound ⦃s⦄ ce node chain es =
      run-IsSound es (new_consensus_manager bp ce node chain) tt
