-- ===== src/Round/Precommits.antt =====
-- Only received precommits change the engine: a node sends none of its own accord.
use waychain_consensus.Prelude.{
  ℕ, ◌+◌, ◌≡◌, ◌≢◌, ◌∙◌, refl, List, [], ◌∷◌, none, some, arith, inl, inr, Bytes, Option-cases,
}
use waychain_consensus.Hashing.{Sha256}
use waychain_consensus.Validators.{ValidatorId}
use waychain_consensus.Types.{Vote}
use waychain_consensus.Engine.{select_proposer}
use waychain_consensus.Round.{
  BlockProducer, Manager, handle_vote, handle_timeout, propose_block, run_block_round,
}
use waychain_consensus.Round.Commit.{handle_vote_exact}
use waychain_consensus.Round.Counting.{
  Event, tick, message, timer_fires, handle, run, start_round_exact,
}

module _ (bp : BlockProducer) where
  -- The event is no precommit.
  abbrev pub IsNoPrecommit : Event bp → Type 0
  IsNoPrecommit tick = Unit
  IsNoPrecommit (message none from) = Unit
  IsNoPrecommit (message (some v) from) = v.vote_type ≢ 2
  IsNoPrecommit (timer_fires height round) = Unit

  abbrev pub HasNoPrecommit : List (Event bp) → Type 0
  HasNoPrecommit [] = Unit
  HasNoPrecommit (e ∷ es) = IsNoPrecommit e × HasNoPrecommit es

  handle_vote-engine :
      (v : Vote) (from : Bytes) (cm : Manager bp)
      → v.vote_type ≢ 2
      → (handle_vote bp (some v) from cm).engine ≡ cm.engine
  unfolding handle_vote
  handle_vote-engine v from cm n = elim (Option-cases cm.current_round) [
    | inl e ↦ rw (e, handle_vote) refl
    | inr (r, e) ↦ ground (arith, handle_vote_exact bp v from r cm e)
  ]

  propose_block-engine :
      (height : ℕ) (proposer : ValidatorId) (cm : Manager bp)
      → (propose_block bp height proposer cm).engine ≡ cm.engine
  unfolding propose_block
  propose_block-engine height proposer cm =
      elim (Option-cases (bp.produce_block proposer cm.chain).0) [
        | inl e ↦ rw (e, propose_block) refl
        | inr (b, e) ↦
            rw (e, propose_block)
              (start_round_exact bp height proposer b
                (record cm { chain = (bp.produce_block proposer cm.chain).1 })).1
      ]

  run_block_round-engine :
      ⦃s : Sha256⦄ (cm : Manager bp) → (run_block_round bp cm).engine ≡ cm.engine
  unfolding run_block_round
  run_block_round-engine ⦃s⦄ cm =
      elim (Option-cases (select_proposer (cm.engine.current_height + 1) cm.engine)) [
        | inl e ↦ rw (e, run_block_round) refl
        | inr (v, e) ↦
            rw (e, run_block_round)
              (ground (arith, propose_block-engine (cm.engine.current_height + 1) v cm))
      ]

  handle_vote-none :
      (from : Bytes) (cm : Manager bp) → (handle_vote bp none from cm).engine ≡ cm.engine
  unfolding handle_vote
  handle_vote-none from cm = refl

  handle-engine :
      ⦃s : Sha256⦄ (e : Event bp) (cm : Manager bp)
      → IsNoPrecommit e
      → (handle bp e cm).engine ≡ cm.engine
  unfolding handle handle_timeout
  handle-engine ⦃s⦄ tick cm n = run_block_round-engine cm
  handle-engine ⦃s⦄ (message none from) cm n = handle_vote-none from cm
  handle-engine ⦃s⦄ (message (some v) from) cm n = handle_vote-engine v from cm n
  handle-engine ⦃s⦄ (timer_fires height round) cm n = ground arith

  -- Whatever ticks, timeouts and messages a node sees, as long as no message is a precommit: its
  -- engine, with the finalized blocks and the current height, stays as it was. So its own proposals
  -- and any number of prevotes finalize nothing.
  pub only_precommits_finalize :
      ⦃s : Sha256⦄ (es : List (Event bp)) (cm : Manager bp)
      → HasNoPrecommit es
      → (run bp es cm).engine ≡ cm.engine
  unfolding run
  only_precommits_finalize ⦃s⦄ [] cm n = refl
  only_precommits_finalize ⦃s⦄ (e ∷ es) cm n =
      only_precommits_finalize es (handle bp e cm) n.1 ∙ handle-engine e cm n.0
