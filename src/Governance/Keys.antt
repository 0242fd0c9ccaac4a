-- ===== src/Governance/Keys.antt =====
-- evm/governance.go: the errors, the constants, the storage keys and the slots of the votes.
use waychain_consensus.Prelude.{
  ℕ, ◌+◌, ◌*◌, ◌/◌, ◌%◌, ◌-◌, ◌^◌, Bool, ◌&&◌, ◌∷◌, ◌++◌, Option, none, some, ltb, leb, ◌==◌,
  if◌then◌else◌, Bytes, codes, length, take, drop, replicate, be_value,
}
use waychain_consensus.Prelude.Decimal.{decimal}
use waychain_consensus.Precompile.{precompile_addr_hex}

pub data GovernanceError : Type 0 where
  input_too_short : GovernanceError
  create_too_short : GovernanceError
  calldata_exceeds_input : GovernanceError
  vote_too_short : GovernanceError
  proposal_not_found : GovernanceError
  proposal_not_active : GovernanceError
  already_voted : GovernanceError
  insufficient_credits : GovernanceError
  get_proposal_too_short : GovernanceError
  get_vote_too_short : GovernanceError
  vote_not_found : GovernanceError
  finalize_too_short : GovernanceError
  market_too_short : GovernanceError
  trade_too_short : GovernanceError
  unknown_selector : ℕ → GovernanceError

abbrev pub vote_type_direct : ℕ
vote_type_direct = 0

abbrev pub vote_type_quadratic : ℕ
vote_type_quadratic = 1

abbrev pub vote_type_futarchy : ℕ
vote_type_futarchy = 2

abbrev pub vote_type_inflation : ℕ
vote_type_inflation = 3

abbrev pub status_active : ℕ
status_active = 1

abbrev pub status_passed : ℕ
status_passed = 2

abbrev pub status_failed : ℕ
status_failed = 3

unfoldable pub governance_addr : Bytes
unfolding precompile_addr_hex
governance_addr = precompile_addr_hex 29

-- The hashed text of each key.
abbrev pub proposal_slot : Bytes → Bytes
proposal_slot id = 1 ∷ id

abbrev pub description_slot : Bytes → Bytes
description_slot id = 16 ∷ id

abbrev pub target_slot : Bytes → Bytes
target_slot id = 17 ∷ id

abbrev pub calldata_slot : Bytes → Bytes
calldata_slot id = 18 ∷ id

abbrev pub votes_slot : Bytes → Bytes
votes_slot id = 19 ∷ id

abbrev pub vote_record_slot : Bytes → Bytes → Bytes
vote_record_slot id voter = 2 ∷ (id ++ voter)

abbrev pub credits_slot : Bytes → Bytes
credits_slot voter = 3 ∷ voter

abbrev pub market_slot : Bytes → Bytes
market_slot id = 4 ∷ id

abbrev pub no_votes_slot : Bytes → Bytes
no_votes_slot id = 21 ∷ id

abbrev pub trade_slot : Bytes → Bytes → Bytes
trade_slot market_id trader = 20 ∷ (market_id ++ trader)

abbrev pub count_slot : Bytes
count_slot = codes "proposal_count"

abbrev pub index_slot : ℕ → Bytes
index_slot idx = codes "pid_" ++ decimal idx

-- The bytes of a slot from the left: the type and the status of a proposal.
abbrev pub first_of : ℕ → ℕ
first_of slot = slot / 2 ^ 248 % 256

abbrev pub second_of : ℕ → ℕ
second_of slot = slot / 2 ^ 240 % 256

abbrev pub with_second : ℕ → ℕ → ℕ
with_second slot b = slot / 2 ^ 248 * 2 ^ 248 + b * 2 ^ 240 + slot % 2 ^ 240

-- A proposal's slot: the type, the status and 30 bytes of the title.
abbrev pub proposal_word : ℕ → ℕ → Bytes → ℕ
proposal_word vote_type status title =
    vote_type * 2 ^ 248 + status * 2 ^ 240 + be_value (take 30 title)

-- `copy(slot[:], bs)` into zeros
abbrev pub left_word : Bytes → ℕ
left_word bs = be_value (take 32 bs ++ replicate (32 - length (take 32 bs)) 0)

-- What `append(input[a:b], xs...)` leaves of the input, for `b` given.
abbrev pub append_over : Bytes → ℕ → Bytes → Bytes
append_over input b xs =
    if leb (b + length xs) (length input)
    then take b input ++ (xs ++ drop (b + length xs) input)
    else input

-- The percentage of votes that a proposal must exceed.
unfoldable pub threshold_of : ℕ → ℕ
threshold_of vote_type =
    if vote_type == vote_type_direct
    then 50
    else if vote_type == vote_type_quadratic
    then 60
    else if vote_type == vote_type_futarchy
    then 66
    else 0

-- Whether a proposal passes, from the votes for and against.
unfoldable pub is_passed : ℕ → ℕ → ℕ → Bool
unfolding threshold_of
is_passed vote_type in_favour against =
    ltb 0 (in_favour + against)
    && ltb (threshold_of vote_type) (in_favour * 100 / (in_favour + against) % 2 ^ 64)

-- `CalldataToInflationPct`, in hundredths
abbrev pub calldata_to_inflation_pct : ℕ → Option ℕ
calldata_to_inflation_pct encoded =
    if leb 300 encoded && leb encoded 900 then some encoded else none
