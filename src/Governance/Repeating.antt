-- ===== src/Governance/Repeating.antt =====
-- Whether a voter can vote again.
use waychain_consensus.Prelude.{◌≡◌, true, false, arith, Bytes, is_panic, ◌==◌, ◌&&◌}
use waychain_consensus.Hashing.{Sha256}
use waychain_consensus.State.{StateDb}
use waychain_consensus.Precompile.{read_byte, read_slot}
use waychain_consensus.Governance.{gov_vote}
use waychain_consensus.Governance.Voting.{can_vote, gov_vote_exact}

module _ ⦃h : Sha256⦄ where
  -- After a vote that was counted and did not panic, the same input can be counted again for the
  -- same caller exactly when its direction and its credits are both zero.
  pub can_vote-gov_vote :
      (input caller : Bytes) (s : StateDb)
      → can_vote input caller s ≡ true
      → is_panic (gov_vote input caller s).0 ≡ false
      → can_vote input caller (gov_vote input caller s).1
        ≡ ((read_byte input 36 == 0) && (read_slot input 37 == 0))
  unfolding can_vote
  can_vote-gov_vote input caller s ready calm =
      ground (arith, (gov_vote_exact input caller s calm).3, (gov_vote_exact input caller s calm).4)
