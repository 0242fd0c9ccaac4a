-- ===== src/AccountManager/Stages.antt =====
-- The stage of an account: the abstract machine that the stage slots follow, and what it keeps.
use waychain_consensus.Prelude.{
  ℕ, ◌+◌, ◌%◌, ◌^◌, ◌≡◌, false, arith, leb, ◌==◌, if◌then◌else◌, Bytes, bytes_eq, lookup_or,
  bytes_eq_iff,
}
use waychain_consensus.Hashing.{Sha256}
use waychain_consensus.State.{StateDb, touch, add_log, account_at}
use waychain_consensus.State.Storage.{sload, sstore, sload-touch}
use waychain_consensus.Precompile.{storage_key}
use waychain_consensus.Precompile.Laws.{sload-sstore_hashed}
use waychain_consensus.AccountManager.{
  manager_addr, account_stage_slot, small_value, last_byte, set_first_byte, set_last_byte,
  encode_block_number, decode_block_number, stage_onboarding, stage_standard, stage_self_custody,
  stage1_waiting_period, account_graduate, account_advance, account_freeze, account_unfreeze,
}

-- The four moves of one stage slot.
unfoldable pub graduated : ℕ → ℕ
graduated slot =
    if small_value slot == stage_onboarding then set_first_byte slot stage_standard else slot

unfoldable pub advanced : ℕ → ℕ → ℕ
advanced block slot =
    if small_value slot == stage_standard
    then (if leb ((decode_block_number slot + stage1_waiting_period) % 2 ^ 64) block
        then set_first_byte slot stage_self_custody
        else slot)
    else slot

unfoldable pub thawed : ℕ → ℕ
thawed slot = if last_byte slot == 1 then set_last_byte slot 0 else slot

-- The move that a selector asks for.
unfoldable pub stage_move : ℕ → ℕ → ℕ → ℕ
unfolding graduated advanced thawed
stage_move sel block slot =
    if sel == 3268666613
    then graduated slot
    else if sel == 3554997670
    then advanced block slot
    else if sel == 3773932211
    then set_last_byte slot 1
    else if sel == 4053971908
    then thawed slot
    else slot

module _ ⦃h : Sha256⦄ where
  unfoldable pub stage_slot : Bytes → StateDb → ℕ
  stage_slot account s = sload manager_addr (storage_key (account_stage_slot account)) s

  module _ (account caller : Bytes) (block : ℕ) (s : StateDb) where
    pub stage-touch : stage_slot account (touch manager_addr s) ≡ stage_slot account s
    unfolding stage_slot
    stage-touch = sload-touch manager_addr (storage_key (account_stage_slot account)) manager_addr s

    -- A write under another kind of key, and one of the caller's stage.
    pub stage-other :
        (j : Bytes) (v : ℕ)
        → bytes_eq j (account_stage_slot account) ≡ false
        → stage_slot account (sstore manager_addr (storage_key j) v s) ≡ stage_slot account s
    unfolding stage_slot
    stage-other j v differ =
        ground (arith, sload-sstore_hashed manager_addr (account_stage_slot account) j v s)

    pub stage-own :
        (v : ℕ)
        → stage_slot account (sstore manager_addr (storage_key (account_stage_slot caller)) v s)
          ≡ (if bytes_eq caller account then v else stage_slot account s)
    unfolding stage_slot bytes_eq
    stage-own v =
        sload-sstore_hashed manager_addr (account_stage_slot account) (account_stage_slot caller) v
          s

  pub stage-account_graduate :
      (account caller : Bytes) (block : ℕ) (s : StateDb)
      → stage_slot account (account_graduate caller block s).1 ≡ (
          if bytes_eq caller account
          then graduated (stage_slot account s)
          else stage_slot account s)
  unfolding account_graduate stage_slot sload account_at lookup_or add_log graduated advanced thawed
      encode_block_number
  stage-account_graduate account caller block s = ground (
    arith,
    stage-touch caller caller block s,
    stage-touch account caller block s,
    stage-own account caller block (touch manager_addr s)
        (set_first_byte (stage_slot caller (touch manager_addr s)) stage_standard),
    bytes_eq_iff caller account,
  )

  pub stage-account_advance :
      (account caller : Bytes) (block : ℕ) (s : StateDb)
      → stage_slot account (account_advance caller block s).1 ≡ (
          if bytes_eq caller account
          then advanced block (stage_slot account s)
          else stage_slot account s)
  unfolding account_advance stage_slot sload account_at lookup_or add_log graduated advanced thawed
      encode_block_number
  stage-account_advance account caller block s = ground (
    arith,
    stage-touch caller caller block s,
    stage-touch account caller block s,
    stage-own account caller block (touch manager_addr s)
        (set_first_byte (stage_slot caller (touch manager_addr s)) stage_self_custody),
    bytes_eq_iff caller account,
  )

  pub stage-account_freeze :
      (account caller : Bytes) (block : ℕ) (s : StateDb)
      → stage_slot account (account_freeze caller block s).1 ≡ (
          if bytes_eq caller account
          then set_last_byte (stage_slot account s) 1
          else stage_slot account s)
  unfolding account_freeze stage_slot sload account_at lookup_or add_log graduated advanced thawed
      encode_block_number
  stage-account_freeze account caller block s = ground (
    arith,
    stage-touch caller caller block s,
    stage-touch account caller block s,
    stage-own account caller block (touch manager_addr s)
        (set_last_byte (stage_slot caller (touch manager_addr s)) 1),
    bytes_eq_iff caller account,
  )

  pub stage-account_unfreeze :
      (account caller : Bytes) (block : ℕ) (s : StateDb)
      → stage_slot account (account_unfreeze caller s).1
        ≡ (if bytes_eq caller account then thawed (stage_slot account s) else stage_slot account s)
  unfolding account_unfreeze stage_slot sload account_at lookup_or add_log graduated advanced thawed
      encode_block_number
  stage-account_unfreeze account caller block s = ground (
    arith,
    stage-touch caller caller block s,
    stage-touch account caller block s,
    stage-own account caller block (touch manager_addr s)
        (set_last_byte (stage_slot caller (touch manager_addr s)) 0),
    bytes_eq_iff caller account,
  )
