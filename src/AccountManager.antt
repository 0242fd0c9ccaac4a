-- ===== src/AccountManager.antt =====
-- evm/account_manager.go: the stages, keys, sessions and guardians of accounts (precompile 0x1B).
-- A slot is the number that its 32 bytes spell. An account is the byte string under which it calls.
pub mod Stages
pub mod Refinement
pub mod Waiting
mod Tests
use waychain_consensus.Prelude.{
  ℕ, ◌+◌, ◌*◌, ◌/◌, ◌%◌, ◌-◌, ◌^◌, Bool, true, false, List, [], ◌∷◌, ◌++◌, ok, err, panic, ltb, leb,
  ◌==◌, if◌then◌else◌, not, Bytes, codes, length, slice, take, be_value,
}
use waychain_consensus.Hashing.{Sha256}
use waychain_consensus.Precompile.{
  Call, pure, ◌>>=◌, ◌>>◌, require, open_account, load, store, emit, read_byte, precompile_addr_hex,
  storage_key, be_bytes, bool_result, selector_bytes,
}

pub data ManagerError : Type 0 where
  input_too_short : ManagerError
  get_stage_too_short : ManagerError
  not_onboarding : ManagerError
  not_standard : ManagerError
  must_wait : ManagerError
  rotate_key_too_short : ManagerError
  create_session_too_short : ManagerError
  revoke_session_too_short : ManagerError
  get_session_too_short : ManagerError
  session_not_found : ManagerError
  set_guardian_too_short : ManagerError
  too_many_guardians : ManagerError
  get_guardian_count_too_short : ManagerError
  not_frozen : ManagerError
  unknown_selector : ℕ → ManagerError

abbrev pub stage_onboarding : ℕ
stage_onboarding = 0

abbrev pub stage_standard : ℕ
stage_standard = 1

abbrev pub stage_self_custody : ℕ
stage_self_custody = 2

abbrev pub stage1_waiting_period : ℕ
stage1_waiting_period = 2592000

unfoldable pub manager_addr : Bytes
unfolding precompile_addr_hex
manager_addr = precompile_addr_hex 27

-- The hashed text of each key.
abbrev pub account_stage_slot : Bytes → Bytes
account_stage_slot account = 1 ∷ account

abbrev pub account_session_slot : Bytes → Bytes → Bytes
account_session_slot account key_id = 2 ∷ (account ++ key_id)

abbrev pub account_guardian_slot : Bytes → ℕ → Bytes
account_guardian_slot account idx = 3 ∷ (account ++ idx ∷ [])

abbrev pub account_key_slot : Bytes → Bytes
account_key_slot account = 5 ∷ account

abbrev pub account_guardian_count_slot : Bytes → Bytes
account_guardian_count_slot account = 6 ∷ account

-- `slot[0]` and `slot[31]`, read and written.
unfoldable pub first_byte : ℕ → ℕ
first_byte slot = slot / 2 ^ 248 % 256

unfoldable pub set_first_byte : ℕ → ℕ → ℕ
set_first_byte slot b = b * 2 ^ 248 + slot % 2 ^ 248

unfoldable pub last_byte : ℕ → ℕ
last_byte slot = slot % 256

unfoldable pub set_last_byte : ℕ → ℕ → ℕ
set_last_byte slot b = slot / 256 * 256 + b

-- `decodeBlockNumber(slot, 1)`
unfoldable pub decode_block_number : ℕ → ℕ
decode_block_number slot = slot / 2 ^ 184 % 2 ^ 64

-- `encodeBlockNumber(slot, 1, val)` takes the array by value, so that the caller's slot stays as it is.
unfoldable pub encode_block_number : ℕ → ℕ → ℕ
encode_block_number slot val = slot

-- The first byte of a slot that is not all zero.
unfoldable pub small_value : ℕ → ℕ
unfolding first_byte
small_value slot = if slot == 0 then 0 else first_byte slot

module _ ⦃h : Sha256⦄ where
  -- `accountGetStage`
  unfoldable pub account_get_stage : Bytes → Call ManagerError Bytes
  unfolding small_value
  account_get_stage input = do
    require (leb 36 (length input)) get_stage_too_short
    open_account manager_addr
    slot ← load manager_addr (storage_key (account_stage_slot (slice input 4 36)))
    pure (small_value slot ∷ [])

  -- `accountGraduate`
  unfoldable pub account_graduate : Bytes → ℕ → Call ManagerError Bytes
  unfolding small_value set_first_byte encode_block_number
  account_graduate caller block = do
    open_account manager_addr
    slot ← load manager_addr (storage_key (account_stage_slot caller))
    require (small_value slot == stage_onboarding) not_onboarding
    store manager_addr (storage_key (account_stage_slot caller))
        (encode_block_number (set_first_byte slot stage_standard) block)
    emit manager_addr (storage_key (codes "StageGraduated") ∷ storage_key caller ∷ [])
        (stage_standard ∷ []) block
    pure (bool_result true)

  -- `accountAdvance`
  unfoldable pub account_advance : Bytes → ℕ → Call ManagerError Bytes
  unfolding small_value set_first_byte decode_block_number
  account_advance caller block = do
    open_account manager_addr
    slot ← load manager_addr (storage_key (account_stage_slot caller))
    require (small_value slot == stage_standard) not_standard
    require (leb ((decode_block_number slot + stage1_waiting_period) % 2 ^ 64) block) must_wait
    store manager_addr (storage_key (account_stage_slot caller))
        (set_first_byte slot stage_self_custody)
    emit manager_addr (storage_key (codes "StageAdvanced") ∷ storage_key caller ∷ [])
        (stage_self_custody ∷ []) block
    pure (bool_result true)

  -- `accountRotateKey`
  unfoldable pub account_rotate_key : Bytes → Bytes → ℕ → Call ManagerError Bytes
  unfolding be_value
  account_rotate_key input caller block = do
    require (leb 36 (length input)) rotate_key_too_short
    open_account manager_addr
    store manager_addr (storage_key (account_key_slot caller)) (be_value (slice input 4 36))
    emit manager_addr (storage_key (codes "KeyRotated") ∷ storage_key caller ∷ [])
        (slice input 4 36) block
    pure (bool_result true)

  -- `input[132]` to `input[135]`, the expiry block: a panic where the input ends before.
  unfoldable pub read_expiry : Bytes → Call ManagerError ℕ
  unfolding be_value
  read_expiry input s =
      (if leb 136 (length input) then ok (be_value (slice input 132 136)) else panic, s)

  -- `accountCreateSession`: bytes 30 and 31 of the slot hold the end of the expiry block, in place of
  -- two bytes of the key.
  unfoldable pub account_create_session : Bytes → Bytes → Call ManagerError Bytes
  unfolding read_expiry be_value
  account_create_session input caller = do
    require (leb 72 (length input)) create_session_too_short
    expiry ← read_expiry input
    open_account manager_addr
    store manager_addr (storage_key (account_session_slot caller (slice input 4 36)))
        (be_value (slice input 36 65) * 2 ^ 16 + expiry % 2 ^ 16)
    pure (bool_result true)

  -- `accountRevokeSession`
  unfoldable pub account_revoke_session : Bytes → Bytes → Call ManagerError Bytes
  unfolding set_first_byte
  account_revoke_session input caller = do
    require (leb 36 (length input)) revoke_session_too_short
    open_account manager_addr
    slot ← load manager_addr (storage_key (account_session_slot caller (slice input 4 36)))
    require (not (slot == 0)) session_not_found
    store manager_addr (storage_key (account_session_slot caller (slice input 4 36)))
        (set_first_byte slot 255)
    pure (bool_result true)

  -- `accountGetSession`
  unfoldable pub account_get_session : Bytes → Bytes → Call ManagerError Bytes
  unfolding first_byte be_bytes
  account_get_session input caller = do
    require (leb 36 (length input)) get_session_too_short
    open_account manager_addr
    slot ← load manager_addr (storage_key (account_session_slot caller (slice input 4 36)))
    require (not (slot == 0)) session_not_found
    pure (be_bytes 31 slot ++ 0 ∷ first_byte slot ∷ [])

  -- `accountSetGuardian`
  unfoldable pub account_set_guardian : Bytes → Bytes → Call ManagerError Bytes
  unfolding small_value set_first_byte be_value read_byte
  account_set_guardian input caller = do
    require (leb 25 (length input)) set_guardian_too_short
    open_account manager_addr
    slot ← load manager_addr (storage_key (account_guardian_count_slot caller))
    require (ltb (small_value slot) 10) too_many_guardians
    store manager_addr (storage_key (account_guardian_slot caller (small_value slot)))
        (be_value (slice input 4 24) * 2 ^ 96 + read_byte input 24 * 2 ^ 88)
    store manager_addr (storage_key (account_guardian_count_slot caller))
        (set_first_byte slot (small_value slot + 1))
    pure (bool_result true)

  -- `accountGetGuardianCount`
  unfoldable pub account_get_guardian_count : Bytes → Call ManagerError Bytes
  unfolding small_value
  account_get_guardian_count input = do
    require (leb 36 (length input)) get_guardian_count_too_short
    open_account manager_addr
    slot ← load manager_addr (storage_key (account_guardian_count_slot (slice input 4 36)))
    pure (small_value slot ∷ [])

  -- `accountFreeze`
  unfoldable pub account_freeze : Bytes → ℕ → Call ManagerError Bytes
  unfolding set_last_byte
  account_freeze caller block = do
    open_account manager_addr
    slot ← load manager_addr (storage_key (account_stage_slot caller))
    store manager_addr (storage_key (account_stage_slot caller)) (set_last_byte slot 1)
    emit manager_addr (storage_key (codes "AccountFrozen") ∷ storage_key caller ∷ []) (1 ∷ []) block
    pure (bool_result true)

  -- `accountUnfreeze`
  unfoldable pub account_unfreeze : Bytes → Call ManagerError Bytes
  unfolding last_byte set_last_byte
  account_unfreeze caller = do
    open_account manager_addr
    slot ← load manager_addr (storage_key (account_stage_slot caller))
    require (last_byte slot == 1) not_frozen
    store manager_addr (storage_key (account_stage_slot caller)) (set_last_byte slot 0)
    pure (bool_result true)

  -- `accountManagerPrecompile`
  unfoldable pub account_manager_precompile : Bytes → Bytes → ℕ → Call ManagerError Bytes
  unfolding account_get_stage account_graduate account_advance account_rotate_key
      account_create_session account_revoke_session account_get_session account_set_guardian
      account_get_guardian_count account_freeze account_unfreeze
  account_manager_precompile input caller block =
      let sel = selector_bytes input in
      if ltb (length input) 4
      then (λ s. (err input_too_short, s))
      else if sel == 2982335460
      then account_get_stage input
      else if sel == 3268666613
      then account_graduate caller block
      else if sel == 3554997670
      then account_advance caller block
      else if sel == 3841304247
      then account_rotate_key input caller block
      else if sel == 4121343944
      then account_create_session input caller
      else if sel == 2797062361
      then account_revoke_session input caller
      else if sel == 3083393504
      then account_get_session input caller
      else if sel == 3369722097
      then account_set_guardian input caller
      else if sel == 3655397794
      then account_get_guardian_count input
      else if sel == 3773932211
      then account_freeze caller block
      else if sel == 4053971908
      then account_unfreeze caller
      else (λ s. (err (unknown_selector sel), s))
