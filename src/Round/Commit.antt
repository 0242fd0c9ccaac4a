-- ===== src/Round/Commit.antt =====
-- What each handler does to the round and to the engine.
use waychain_consensus.Prelude.{
  ◌≡◌, some, arith, leb, ◌==◌, if◌then◌else◌, Bytes, bytes_key, nat_eq,
}
use waychain_consensus.Validators.{id_string}
use waychain_consensus.Types.{Vote}
use waychain_consensus.Round.{
  RoundState, BlockProducer, Manager, commit_threshold, with_round, count_prevote, count_precommit,
  commit, check_commit_locked, count_vote, handle_vote,
}

module _ (bp : BlockProducer) where
  -- The effect of one more precommit on round and engine, whoever sent it.
  abbrev pub after_precommit : RoundState → Manager bp → Manager bp
  after_precommit r cm =
      if leb (commit_threshold cm.engine.total_power) r.precommit_power
      then commit bp r cm
      else with_round bp r cm

  -- A received vote changes nothing unless a round is running for its height. A prevote raises the
  -- prevote power by one and leaves engine, phase and precommits alone. A precommit raises the
  -- precommit power by one and commits if the power has then reached the threshold. A vote of
  -- another type changes nothing.
  pub handle_vote_exact :
      (v : Vote) (from : Bytes) (r : RoundState) (cm : Manager bp)
      → cm.current_round ≡ some r
      → handle_vote bp (some v) from cm ≡ (
          if r.height == v.height
          then if v.vote_type == 1
            then with_round bp (count_prevote from v r) cm
            else if v.vote_type == 2
            then after_precommit (count_precommit (id_string v.validator) v r) cm
            else cm
          else cm)
  unfolding handle_vote count_vote check_commit_locked
  handle_vote_exact v from r cm e = ground arith
