-- ===== src/AccountManager/Refinement.antt =====
-- Every call of the precompile moves the caller's stage by the abstract machine and no other stage.
use waychain_consensus.Prelude.{
  ℕ, ◌+◌, ◌*◌, ◌%◌, ◌^◌, ◌≡◌, refl, arith, leb, ◌&&◌, if◌then◌else◌, Bytes, length, slice, bytes_eq,
  lookup_or, be_value,
}
use waychain_consensus.Hashing.{Sha256}
use waychain_consensus.State.{StateDb, touch, add_log, account_at}
use waychain_consensus.State.Storage.{sload, sstore}
use waychain_consensus.Precompile.{read_byte, storage_key, selector_bytes}
use waychain_consensus.AccountManager.{
  manager_addr, account_key_slot, account_session_slot, account_guardian_slot,
  account_guardian_count_slot, small_value, set_first_byte, read_expiry, account_get_stage,
  account_rotate_key, account_create_session, account_revoke_session, account_get_session,
  account_set_guardian, account_get_guardian_count, account_manager_precompile,
}
use waychain_consensus.AccountManager.Stages.{
  stage_move, stage_slot, stage-touch, stage-other, stage-account_graduate, stage-account_advance,
  stage-account_freeze, stage-account_unfreeze,
}

module _ ⦃h : Sha256⦄ where
  stage-account_get_stage :
      (input account caller : Bytes) (block : ℕ) (s : StateDb)
      → stage_slot account (account_get_stage input s).1 ≡ stage_slot account s
  unfolding account_get_stage stage_slot sload account_at lookup_or add_log bytes_eq
  stage-account_get_stage input account caller block s =
      ground (arith, stage-touch account caller block s)

  stage-account_get_session :
      (input account caller : Bytes) (block : ℕ) (s : StateDb)
      → stage_slot account (account_get_session input caller s).1 ≡ stage_slot account s
  unfolding account_get_session stage_slot sload account_at lookup_or add_log bytes_eq
  stage-account_get_session input account caller block s =
      ground (arith, stage-touch account caller block s)

  stage-account_get_guardian_count :
      (input account caller : Bytes) (block : ℕ) (s : StateDb)
      → stage_slot account (account_get_guardian_count input s).1 ≡ stage_slot account s
  unfolding account_get_guardian_count stage_slot sload account_at lookup_or add_log bytes_eq
  stage-account_get_guardian_count input account caller block s =
      ground (arith, stage-touch account caller block s)

  stage-account_rotate_key :
      (input account caller : Bytes) (block : ℕ) (s : StateDb)
      → stage_slot account (account_rotate_key input caller block s).1 ≡ stage_slot account s
  unfolding account_rotate_key stage_slot sload account_at lookup_or add_log bytes_eq
  stage-account_rotate_key input account caller block s = ground (
    arith,
    stage-touch account caller block s,
    stage-other account caller 0 (touch manager_addr s) (account_key_slot caller)
        (be_value (slice input 4 36)) refl,
  )

  stage-account_create_session :
      (input account caller : Bytes) (block : ℕ) (s : StateDb)
      → stage_slot account (account_create_session input caller s).1 ≡ stage_slot account s
  unfolding account_create_session stage_slot sload account_at lookup_or add_log bytes_eq
      read_expiry
  stage-account_create_session input account caller block s = ground (
    arith,
    stage-touch account caller block s,
    stage-other account caller 0 (touch manager_addr s)
        (account_session_slot caller (slice input 4 36))
        (be_value (slice input 36 65) * 2 ^ 16 + be_value (slice input 132 136) % 2 ^ 16) refl,
  )

  stage-account_revoke_session :
      (input account caller : Bytes) (block : ℕ) (s : StateDb)
      → stage_slot account (account_revoke_session input caller s).1 ≡ stage_slot account s
  unfolding account_revoke_session stage_slot sload account_at lookup_or add_log bytes_eq
  stage-account_revoke_session input account caller block s = ground (
    arith,
    stage-touch account caller block s,
    stage-other account caller 0 (touch manager_addr s)
        (account_session_slot caller (slice input 4 36))
        (set_first_byte
          (sload manager_addr (storage_key (account_session_slot caller (slice input 4 36)))
            (touch manager_addr s))
          255)
        refl,
  )

  stage-account_set_guardian :
      (input account caller : Bytes) (block : ℕ) (s : StateDb)
      → stage_slot account (account_set_guardian input caller s).1 ≡ stage_slot account s
  unfolding account_set_guardian stage_slot sload account_at lookup_or add_log bytes_eq
  stage-account_set_guardian input account caller block s = ground (
    arith,
    stage-touch account caller block s,
    stage-other account caller 0 (touch manager_addr s)
        (account_guardian_slot caller (
          small_value (
            sload manager_addr (storage_key (account_guardian_count_slot caller))
              (touch manager_addr s))))
        (be_value (slice input 4 24) * 2 ^ 96 + read_byte input 24 * 2 ^ 88) refl,
    stage-other account caller 0
        (sstore manager_addr
          (storage_key (
            account_guardian_slot caller (
              small_value (
                sload manager_addr (storage_key (account_guardian_count_slot caller))
                  (touch manager_addr s)))))
          (be_value (slice input 4 24) * 2 ^ 96 + read_byte input 24 * 2 ^ 88)
          (touch manager_addr s))
        (account_guardian_count_slot caller)
        (set_first_byte
          (sload manager_addr (storage_key (account_guardian_count_slot caller))
            (touch manager_addr s))
          (small_value (
              sload manager_addr (storage_key (account_guardian_count_slot caller))
                (touch manager_addr s))
            + 1))
        refl,
  )

  -- Every call of the account manager, on any state, acts on the stage slots as the abstract
  -- machine `stage_move`: the caller's slot moves as the selector and the block say, and every
  -- other account's slot stays.
  pub account_manager_precompile-stage_move :
      (input account caller : Bytes) (block : ℕ) (s : StateDb)
      → stage_slot account (account_manager_precompile input caller block s).1 ≡ (
          if leb 4 (length input) && bytes_eq caller account
          then stage_move (selector_bytes input) block (stage_slot account s)
          else stage_slot account s)
  unfolding account_manager_precompile stage_move
  account_manager_precompile-stage_move input account caller block s = ground (
    arith,
    stage-account_graduate account caller block s,
    stage-account_advance account caller block s,
    stage-account_freeze account caller block s,
    stage-account_unfreeze account caller block s,
    stage-account_get_stage input account caller block s,
    stage-account_rotate_key input account caller block s,
    stage-account_create_session input account caller block s,
    stage-account_revoke_session input account caller block s,
    stage-account_get_session input account caller block s,
    stage-account_set_guardian input account caller block s,
    stage-account_get_guardian_count input account caller block s,
  )
