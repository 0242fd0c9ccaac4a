-- ===== src/AccountManager/Tests.antt =====
-- Runs of the account manager, and its theorems at concrete inputs.
use waychain_consensus.Prelude.{
  ◌+◌, ◌≡◌, refl, ◌&&◌, leb, List, [], ◌∷◌, if◌then◌else◌, codes, Bytes, length, bytes_eq,
  lookup_or, insert, lookup, be_value, be_from,
}
use waychain_consensus.Hashing.{plain_digest}
use waychain_consensus.State.{new_state_db, account_at, put_account, touch, add_log}
use waychain_consensus.State.Storage.{sload, sstore}
use waychain_consensus.Precompile.{selector_bytes}
use waychain_consensus.AccountManager.{
  account_graduate, account_manager_precompile, manager_addr, small_value, first_byte,
  set_first_byte, encode_block_number,
}
use waychain_consensus.AccountManager.Stages.{stage_slot, stage_move}
use waychain_consensus.AccountManager.Refinement.{account_manager_precompile-stage_move}
use waychain_consensus.AccountManager.Waiting.{
  ManagerCall, manager_call, run, raises, stage_of, run-stage_of,
}

abbrev graduate_input : Bytes
graduate_input = 194 ∷ 211 ∷ 228 ∷ 245 ∷ []

abbrev advance_input : Bytes
advance_input = 211 ∷ 228 ∷ 245 ∷ 166 ∷ []

abbrev ann : Bytes
ann = codes "ann"

-- Ann graduates at block 2591999.
abbrev history : List ManagerCall
history = manager_call graduate_input ann 2591999 ∷ []

run-stage_of_example :
    stage_of ann (account_manager_precompile advance_input ann 2592000 (run history new_state_db)).1
    ≡ stage_of ann (run history new_state_db)
      + (if leb 4 (length advance_input)
            && bytes_eq ann ann
            && raises
                (selector_bytes advance_input)
                2592000
                (stage_of ann (run history new_state_db))
          then 1
          else 0)
run-stage_of_example = run-stage_of history advance_input ann ann 2592000

account_manager_precompile-stage_move_example :
    stage_slot ann (account_manager_precompile graduate_input ann 7 new_state_db).1 ≡ (
      if leb 4 (length graduate_input) && bytes_eq ann ann
      then stage_move (selector_bytes graduate_input) 7 (stage_slot ann new_state_db)
      else stage_slot ann new_state_db)
account_manager_precompile-stage_move_example =
    account_manager_precompile-stage_move graduate_input ann ann 7 new_state_db

-- One block after that, Ann is in stage 1 and may advance.
history_test : stage_of ann (run history new_state_db) ≡ 1
unfolding stage_of run stage_slot sload sstore account_at put_account lookup_or lookup insert
    bytes_eq manager_addr small_value first_byte set_first_byte encode_block_number
    account_manager_precompile account_graduate selector_bytes be_value be_from touch add_log
history_test = refl
