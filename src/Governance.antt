-- ===== src/Governance.antt =====
-- evm/governance.go: proposals, votes and markets (precompile 0x1D), and the applications and elections of
-- curators. A slot is the number that its 32 bytes spell.
-- The live inflation rate of evm/inflation.go, a float in a variable of the package, is the number of
-- hundredths that a proposal encodes; `applied`, a parameter, is what `uint32(applied * 100)` makes of it.
-- `append(titleHash, ...)` writes behind a slice of the input where there is room: the capacity of the
-- input is its length.
mod Keys
pub mod Slots
pub mod Voting
pub mod Repeating
pub mod Finalizing
pub mod Curators
mod Tests
unfoldable pub use Keys.*
use waychain_consensus.Prelude.{
  ℕ, ◌+◌, ◌*◌, ◌/◌, ◌%◌, ◌-◌, ◌^◌, Bool, true, false, ◌&&◌, not, List, [], ◌∷◌, ◌++◌, Option, none,
  some, ok, err, panic, ltb, leb, ◌==◌, if◌then◌else◌, Bytes, codes, length, slice, take, drop,
  replicate, be_value,
}
use waychain_consensus.Prelude.Decimal.{decimal}
use waychain_consensus.Hashing.{Sha256}
use waychain_consensus.State.{get_account}
use waychain_consensus.Precompile.{
  Call, pure, ◌>>=◌, ◌>>◌, require, open_account, load, store, store_big, emit, read_byte,
  read_slot, precompile_addr_hex, storage_key, be_bytes, word, bool_result, selector_bytes,
  fill_bytes,
}

module _ ⦃h : Sha256⦄ where
  -- `generateProposalID`, and what it leaves of the input: the proposer and the block are appended to the
  -- title in place, and the second of them only where the first was.
  abbrev pub generate_proposal_id : Bytes → Bytes → ℕ → Bytes
  generate_proposal_id title proposer block = h.sum256 (title ++ (proposer ++ decimal block))

  unfoldable pub overwritten : Bytes → Bytes → ℕ → Bytes
  overwritten input proposer block =
      if leb (37 + length proposer) (length input)
      then append_over (append_over input 37 proposer) (37 + length proposer) (decimal block)
      else input

  -- `generateMarketID`
  abbrev pub generate_market_id : Bytes → ℕ → Bytes
  generate_market_id proposal_id block = h.sum256 (proposal_id ++ decimal block)

  -- The writes of `govCreateProposal`, from the input as it then is.
  unfoldable pub store_proposal : Bytes → Bytes → ℕ → ℕ → Call GovernanceError (Unit {0})
  store_proposal input id vote_type calldata_len = do
    open_account governance_addr
    store governance_addr (storage_key (proposal_slot id))
        (proposal_word vote_type status_active (slice input 5 37))
    store governance_addr (storage_key (description_slot id)) (be_value (slice input 37 69))
    store governance_addr (storage_key (target_slot id)) (left_word (slice input 69 89))
    store governance_addr (storage_key (calldata_slot id))
        (left_word (slice input 121 (121 + calldata_len)))

  -- The index of the proposals.
  unfoldable pub index_proposal : Bytes → Call GovernanceError (Unit {0})
  index_proposal id = do
    count ← load governance_addr (storage_key count_slot)
    store governance_addr (storage_key (index_slot (count % 2 ^ 64))) (be_value id)
    store_big governance_addr (storage_key count_slot) (count + 1)

  -- A length from which on `input[offset : offset+int(n)]` has a negative bound.
  abbrev pub check_calldata : ℕ → ℕ → Call GovernanceError (Unit {0})
  check_calldata n size s =
      if leb (2 ^ 63 - 121) n
      then (panic, s)
      else if ltb size (121 + n)
      then (err calldata_exceeds_input, s)
      else (ok tt, s)

  -- `govCreateProposal`
  unfoldable pub gov_create_proposal : Bytes → Bytes → ℕ → Call GovernanceError Bytes
  unfolding overwritten store_proposal index_proposal
  gov_create_proposal input caller block = do
    let calldata_len = read_slot input 89 % 2 ^ 64
    let id = generate_proposal_id (slice input 5 37) caller block
    require (leb 121 (length input)) create_too_short
    check_calldata calldata_len (length input)
    store_proposal (overwritten input caller block) id (read_byte input 4) calldata_len
    index_proposal id
    store governance_addr (storage_key (votes_slot id)) 0
    emit governance_addr (storage_key (codes "ProposalCreated") ∷ id ∷ []) (read_byte input 4 ∷ [])
        block
    pure id

  -- `FillBytes` into 31 bytes
  abbrev pub check_31_bytes : ℕ → Call GovernanceError (Unit {0})
  check_31_bytes n s = (if ltb n (2 ^ 248) then ok tt else panic, s)

  -- The slot of an active proposal.
  unfoldable pub active_proposal : Bytes → Call GovernanceError ℕ
  active_proposal id = do
    open_account governance_addr
    slot ← load governance_addr (storage_key (proposal_slot id))
    require (not (slot == 0)) proposal_not_found
    require (second_of slot == status_active) proposal_not_active
    pure slot

  -- The count of a vote: every direction but 1 is against.
  unfoldable pub count_vote : Bytes → ℕ → Call GovernanceError (Unit {0})
  count_vote id direction = do
    in_favour ← load governance_addr (storage_key (votes_slot id))
    if direction == 1
        then store_big governance_addr (storage_key (votes_slot id)) (in_favour + 1)
        else (do
          against ← load governance_addr (storage_key (no_votes_slot id))
          store_big governance_addr (storage_key (no_votes_slot id)) (against + 1)
          store governance_addr (storage_key (votes_slot id)) in_favour)

  -- The credits of a quadratic vote, which are checked when the vote has been counted.
  unfoldable pub pay_credits : ℕ → Bytes → ℕ → Call GovernanceError (Unit {0})
  pay_credits vote_type caller credits =
      if not (vote_type == vote_type_quadratic) then pure tt else do
        current ← load governance_addr (storage_key (credits_slot caller))
        require (leb credits current) insufficient_credits
        store governance_addr (storage_key (credits_slot caller)) (current - credits)

  -- `govVote`, on an active proposal
  unfoldable pub record_vote : Bytes → Bytes → ℕ → ℕ → ℕ → Call GovernanceError Bytes
  unfolding count_vote pay_credits
  record_vote id caller slot direction credits = do
    before ← load governance_addr (storage_key (vote_record_slot id caller))
    require (before == 0) already_voted
    check_31_bytes credits
    store governance_addr (storage_key (vote_record_slot id caller)) (direction * 2 ^ 248 + credits)
    count_vote id direction
    pay_credits (first_of slot) caller credits
    emit governance_addr (storage_key (codes "VoteCast") ∷ id ∷ []) (direction ∷ []) 0
    pure (bool_result true)

  -- `govVote`
  unfoldable pub gov_vote : Bytes → Bytes → Call GovernanceError Bytes
  unfolding active_proposal record_vote
  gov_vote input caller = do
    require (leb 69 (length input)) vote_too_short
    slot ← active_proposal (slice input 4 36)
    record_vote (slice input 4 36) caller slot (read_byte input 36) (read_slot input 37)

  -- `govGetProposal`: 34 bytes, of which the last two are zero
  unfoldable pub gov_get_proposal : Bytes → Call GovernanceError Bytes
  gov_get_proposal input = do
    require (leb 36 (length input)) get_proposal_too_short
    open_account governance_addr
    slot ← load governance_addr (storage_key (proposal_slot (slice input 4 36)))
    require (not (slot == 0)) proposal_not_found
    pure (first_of slot ∷ second_of slot ∷ (be_bytes 30 slot ++ 0 ∷ 0 ∷ []))

  -- `govGetVote`: 33 bytes, of which the last is zero
  unfoldable pub gov_get_vote : Bytes → Bytes → Call GovernanceError Bytes
  gov_get_vote input caller = do
    require (leb 36 (length input)) get_vote_too_short
    open_account governance_addr
    slot ← load governance_addr (storage_key (vote_record_slot (slice input 4 36) caller))
    require (not (slot == 0)) vote_not_found
    pure (first_of slot ∷ (be_bytes 31 slot ++ 0 ∷ []))

  -- `govGetCredits`
  unfoldable pub gov_get_credits : Bytes → Call GovernanceError Bytes
  gov_get_credits caller = do
    open_account governance_addr
    credits ← load governance_addr (storage_key (credits_slot caller))
    pure (word credits)

  -- `acc.Storage[propKey] = propSlot` and the end of `govFinalize`
  unfoldable pub close_proposal : Bytes → ℕ → Bool → ℕ → Call GovernanceError Bytes
  close_proposal id slot passed block = do
    store governance_addr (storage_key (proposal_slot id))
        (with_second slot (if passed then status_passed else status_failed))
    emit governance_addr (storage_key (codes "ProposalFinalized") ∷ id ∷ [])
        ((if passed then 1 else 0) ∷ []) block
    pure (bool_result passed)

  -- The inflation rate that a proposal sets, if it passed and sets one.
  unfoldable pub set_inflation : (ℕ → ℕ) → Bytes → ℕ → Bool → ℕ → Call GovernanceError (Option ℕ)
  set_inflation applied id slot passed block =
      if not (passed && (first_of slot == vote_type_inflation)) then pure none else do
        calldata ← load governance_addr (storage_key (calldata_slot id))
        elim (calldata_to_inflation_pct (calldata / 2 ^ 224 % 2 ^ 32)) [
          | none ↦ pure none
          | some rate ↦ do
            emit governance_addr (storage_key (codes "InflationSet") ∷ id ∷ [])
                (be_bytes 32 (applied rate)) block
            pure (some rate)
        ]

  -- `govFinalize`: the answer, and the inflation rate where it sets one
  unfoldable pub gov_finalize : (ℕ → ℕ) → Bytes → ℕ → Call GovernanceError (Bytes × Option ℕ)
  unfolding active_proposal is_passed set_inflation close_proposal
  gov_finalize applied input block = do
    let id = slice input 4 36
    require (leb 36 (length input)) finalize_too_short
    slot ← active_proposal id
    in_favour ← load governance_addr (storage_key (votes_slot id))
    against ← load governance_addr (storage_key (no_votes_slot id))
    rate ← set_inflation applied id slot (is_passed (first_of slot) in_favour against) block
    answer ← close_proposal id slot (is_passed (first_of slot) in_favour against) block
    pure (answer, rate)

  -- `govCreateMarket`: the digits of the block are appended over the start of the question.
  unfoldable pub gov_create_market : Bytes → ℕ → Call GovernanceError Bytes
  gov_create_market input block = do
    let id = generate_market_id (slice input 4 36) block
    require (leb 68 (length input)) market_too_short
    open_account governance_addr
    store governance_addr (storage_key (market_slot id))
        (be_value (slice (append_over input 36 (decimal block)) 36 68))
    emit governance_addr (storage_key (codes "MarketCreated") ∷ id ∷ []) (1 ∷ []) block
    pure id

  -- `govTradeMarket`
  unfoldable pub gov_trade_market : Bytes → Bytes → Call GovernanceError Bytes
  gov_trade_market input caller = do
    let id = slice input 4 36
    let side = read_byte input 36
    require (leb 69 (length input)) trade_too_short
    open_account governance_addr
    check_31_bytes (read_slot input 37)
    store governance_addr (storage_key (trade_slot id caller)) (side * 2 ^ 248 + read_slot input 37)
    emit governance_addr (storage_key (codes "MarketTrade") ∷ id ∷ []) (side ∷ []) 0
    pure (bool_result true)

  -- An answer that sets no inflation rate.
  abbrev pub without_rate : Call GovernanceError Bytes → Call GovernanceError (Bytes × Option ℕ)
  without_rate call = do answer ← call; pure (answer, none)

  -- `governancePrecompile`
  unfoldable pub governance_precompile :
      (ℕ → ℕ) → Bytes → Bytes → ℕ → Call GovernanceError (Bytes × Option ℕ)
  unfolding gov_create_proposal gov_vote gov_get_proposal gov_get_vote gov_get_credits gov_finalize
      gov_create_market gov_trade_market
  governance_precompile applied input caller block =
      let sel = selector_bytes input in
      if ltb (length input) 4
      then (λ s. (err input_too_short, s))
      else if sel == 3521311652
      then without_rate (gov_create_proposal input caller block)
      else if sel == 3807618229
      then without_rate (gov_vote input caller)
      else if sel == 4087657926
      then without_rate (gov_get_proposal input)
      else if sel == 2763376343
      then without_rate (gov_get_vote input caller)
      else if sel == 3049707496
      then without_rate (gov_get_credits caller)
      else if sel == 3336038649
      then gov_finalize applied input block
      else if sel == 3622369696
      then without_rate (gov_create_market input block)
      else if sel == 3908673713
      then without_rate (gov_trade_market input caller)
      else (λ s. (err (unknown_selector sel), s))
