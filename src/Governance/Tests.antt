-- ===== src/Governance/Tests.antt =====
-- Runs of the votes, and their theorems at concrete inputs.
use waychain_consensus.Prelude.{
  ◌+◌, ◌*◌, ◌^◌, ◌≡◌, refl, true, false, if◌then◌else◌, Bytes, bytes_eq, ◌∷◌, ◌++◌, is_ok, ◌==◌,
  ◌&&◌, codes, replicate, be_value, be_from, lookup, lookup_or, insert,
}
use waychain_consensus.Hashing.{plain_digest}
use waychain_consensus.State.{StateDb, new_state_db, account_at, put_account, touch, add_log}
use waychain_consensus.State.Storage.{sload, sstore}
use waychain_consensus.Precompile.{read_slot, read_byte}
use waychain_consensus.Governance.{
  governance_addr, proposal_word, status_active, status_passed, status_failed, with_second,
  first_of, proposal_slot, votes_slot, no_votes_slot, vote_record_slot, active_proposal,
  record_vote, count_vote, pay_credits, gov_vote, gov_finalize, threshold_of, is_passed,
}
use waychain_consensus.Governance.Slots.{slot, put}
use waychain_consensus.Governance.Voting.{can_vote, affords, gov_vote_exact}
use waychain_consensus.Governance.Repeating.{can_vote-gov_vote}
use waychain_consensus.Governance.Finalizing.{is_open, passes, gov_finalize_exact}

abbrev id : Bytes
id = replicate 32 7

abbrev proposed : StateDb
proposed = put (proposal_slot id) (proposal_word 0 status_active (replicate 32 5)) new_state_db

abbrev aye : Bytes
aye = 0 ∷ 0 ∷ 0 ∷ 0 ∷ (id ++ 1 ∷ replicate 32 0)

abbrev nay : Bytes
nay = 0 ∷ 0 ∷ 0 ∷ 0 ∷ (id ++ 0 ∷ replicate 32 0)

abbrev voted : StateDb
voted = (gov_vote aye (codes "ann") proposed).1

gov_vote_exact_example :
    let r = gov_vote aye (codes "ann") proposed in
    let ready = can_vote aye (codes "ann") proposed in
    (is_ok r.0 ≡ (
      ready
      && affords
          (first_of (slot (proposal_slot id) proposed))
          (codes "ann")
          (read_slot aye 37)
          proposed))
    × (slot (votes_slot id) r.1 ≡ (
        if ready && true then slot (votes_slot id) proposed + 1 else slot (votes_slot id) proposed))
    × (slot (no_votes_slot id) r.1 ≡ (
        if ready && false
        then slot (no_votes_slot id) proposed + 1
        else slot (no_votes_slot id) proposed))
    × (slot (vote_record_slot id (codes "ann")) r.1 ≡ (
        if ready
        then read_byte aye 36 * 2 ^ 248 + read_slot aye 37
        else slot (vote_record_slot id (codes "ann")) proposed))
    × (slot (proposal_slot id) r.1 ≡ slot (proposal_slot id) proposed)
unfolding gov_vote active_proposal record_vote count_vote pay_credits put slot sload sstore
    account_at put_account lookup_or lookup insert touch add_log bytes_eq be_value be_from read_slot
    read_byte governance_addr
gov_vote_exact_example = gov_vote_exact aye (codes "ann") proposed refl

-- The vote is recorded.
aye_test : can_vote aye (codes "ann") proposed ≡ true
unfolding can_vote put slot sload sstore account_at put_account lookup_or lookup insert bytes_eq
    be_value be_from governance_addr
aye_test = refl

can_vote-gov_vote_example :
    can_vote nay (codes "ann") (gov_vote nay (codes "ann") proposed).1
    ≡ ((read_byte nay 36 == 0) && (read_slot nay 37 == 0))
unfolding can_vote gov_vote active_proposal record_vote count_vote pay_credits put slot sload sstore
    account_at put_account lookup_or lookup insert touch add_log bytes_eq be_value be_from read_slot
    read_byte governance_addr
can_vote-gov_vote_example = can_vote-gov_vote nay (codes "ann") proposed refl refl

gov_finalize_exact_example :
    let r = gov_finalize (λ rate. rate) aye 9 voted in
    (is_ok r.0 ≡ is_open aye voted)
    × (slot (proposal_slot id) r.1 ≡ (
        if is_open aye voted
        then with_second
            (slot (proposal_slot id) voted)
            (if passes id voted then status_passed else status_failed)
        else slot (proposal_slot id) voted))
    × ((k : Bytes) → bytes_eq (proposal_slot id) k ≡ false → slot k r.1 ≡ slot k voted)
gov_finalize_exact_example = gov_finalize_exact (λ rate. rate) aye 9 voted

-- One vote is enough.
finalize_test : (is_open aye voted ≡ true) × (passes id voted ≡ true)
unfolding is_open passes is_passed threshold_of gov_vote active_proposal record_vote count_vote
    pay_credits put slot sload sstore account_at put_account lookup_or lookup insert touch add_log
    bytes_eq be_value be_from read_slot read_byte governance_addr
finalize_test = (refl, refl)
