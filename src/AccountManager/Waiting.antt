-- ===== src/AccountManager/Waiting.antt =====
-- What the stages of the accounts keep over any history of calls, and when an account may advance.
use waychain_consensus.Prelude.{
  ℕ, ◌+◌, ◌≤◌, ◌≡◌, refl, Bool, List, [], ◌∷◌, arith, leb, ◌==◌, ◌&&◌, ◌||◌, is_ok, if◌then◌else◌,
  Bytes, length, bytes_eq, lookup, lookup_or,
}
use waychain_consensus.Hashing.{Sha256}
use waychain_consensus.State.{StateDb, new_state_db, account_at}
use waychain_consensus.State.Storage.{sload}
use waychain_consensus.Precompile.{selector_bytes}
use waychain_consensus.AccountManager.{
  small_value, first_byte, last_byte, set_first_byte, set_last_byte, decode_block_number,
  account_advance, account_manager_precompile, stage_standard, stage1_waiting_period,
}
use waychain_consensus.AccountManager.Stages.{
  stage_move, graduated, advanced, thawed, stage_slot, stage-touch,
}
use waychain_consensus.AccountManager.Refinement.{account_manager_precompile-stage_move}

-- A stage is 0, 1 or 2, and the block number that a stage slot has room for is 0.
abbrev pub IsStage : ℕ → Type 0
IsStage slot = (first_byte slot ≤ 2) × (decode_block_number slot ≡ 0)

stage_move-IsStage : (sel block slot : ℕ) → IsStage slot → IsStage (stage_move sel block slot)
unfolding stage_move graduated advanced thawed small_value first_byte set_first_byte last_byte
    set_last_byte decode_block_number
stage_move-IsStage sel block slot (low, none) = (ground arith, ground arith)

-- Whether a selector raises the stage of a slot that is as above.
unfoldable pub raises : ℕ → ℕ → ℕ → Bool
raises sel block stage =
    (sel == 3268666613 && stage == 0) || (sel == 3554997670 && stage == 1 && leb 2592000 block)

stage_move-raises :
    (sel block slot : ℕ)
    → IsStage slot
    → first_byte (stage_move sel block slot)
      ≡ first_byte slot + (if raises sel block (first_byte slot) then 1 else 0)
unfolding raises stage_move graduated advanced thawed small_value first_byte set_first_byte
    last_byte set_last_byte
stage_move-raises sel block slot (low, none) = ground arith

pub data ManagerCall : Type 0 where
  manager_call : Bytes → Bytes → ℕ → ManagerCall

module _ ⦃h : Sha256⦄ where
  unfoldable pub run : List ManagerCall → StateDb → StateDb
  run [] s = s
  run (manager_call input caller block ∷ cs) s =
      run cs (account_manager_precompile input caller block s).1

  unfoldable pub stage_of : Bytes → StateDb → ℕ
  unfolding stage_slot first_byte
  stage_of account s = first_byte (stage_slot account s)

  run-IsStage :
      (cs : List ManagerCall) (account : Bytes) (s : StateDb)
      → IsStage (stage_slot account s)
      → IsStage (stage_slot account (run cs s))
  unfolding run
  run-IsStage [] account s inv = inv
  run-IsStage (manager_call input caller block ∷ cs) account s inv =
      run-IsStage cs account (account_manager_precompile input caller block s).1 (
        ground (
          arith,
          inv,
          account_manager_precompile-stage_move input account caller block s,
          stage_move-IsStage (selector_bytes input) block (stage_slot account s) inv,
        ))

  new_state_db-IsStage : (account : Bytes) → IsStage (stage_slot account new_state_db)
  unfolding stage_slot sload account_at lookup_or lookup first_byte decode_block_number
  new_state_db-IsStage account = (omega arith, refl)

  -- After any history of calls on a new state, one more call changes the stage of an account by at
  -- most one step upwards: from 0 by the account's own `graduate`, and from 1 by its own `advance`
  -- at a block that is not below 2592000. No other call, and no call of another account, changes
  -- it.
  pub run-stage_of :
      (cs : List ManagerCall) (input account caller : Bytes) (block : ℕ)
      → let s = run cs new_state_db in
        stage_of account (account_manager_precompile input caller block s).1
        ≡ stage_of account s
          + (if leb 4 (length input)
                && bytes_eq caller account
                && raises (selector_bytes input) block (stage_of account s)
              then 1
              else 0)
  unfolding stage_of
  run-stage_of cs input account caller block = ground (
    arith,
    account_manager_precompile-stage_move input account caller block (run cs new_state_db),
    stage_move-raises (selector_bytes input) block (stage_slot account (run cs new_state_db))
        (run-IsStage cs account new_state_db (new_state_db-IsStage account)),
  )

  -- After any history of calls on a new state, `advance` is accepted exactly for an account in
  -- stage 1 at a block that is not below 2592000, whenever the account has entered that stage.
  pub account_advance_exact :
      (cs : List ManagerCall) (caller : Bytes) (block : ℕ)
      → let s = run cs new_state_db in
        is_ok (account_advance caller block s).0
        ≡ (stage_of caller s == stage_standard && leb stage1_waiting_period block)
  unfolding stage_of account_advance stage_slot small_value first_byte
  account_advance_exact cs caller block = ground (
    arith,
    stage-touch caller caller block (run cs new_state_db),
    run-IsStage cs caller new_state_db (new_state_db-IsStage caller),
  )
