-- ===== src/DeadMansSwitch.antt =====
-- evm/precompiles.go, the dead man's switches (precompile 0x15). A switch is one slot: the type, the
-- interval and the last heartbeat of eight bytes each, the state, and the block of its creation.
pub mod Fields
pub mod Claiming
mod Tests
use waychain_consensus.Prelude.{
  ℕ, ◌+◌, ◌*◌, ◌/◌, ◌%◌, ◌-◌, ◌^◌, Bool, true, false, [], ◌∷◌, ltb, leb, ◌==◌, if◌then◌else◌, not,
  ◌&&◌, Bytes, length, slice, ok, err, panic,
}
use waychain_consensus.Hashing.{Sha256}
use waychain_consensus.Precompile.{
  Call, pure, ◌>>=◌, ◌>>◌, require, open_account, load, store, fill_bytes, precompile_addr_hex,
  storage_key, word, be_bytes, selector_bytes, read_uint64, read_address, read_byte,
}
use waychain_consensus.Serialize.Numbers.{number_bytes}

pub data SwitchError : Type 0 where
  invalid_interval : SwitchError
  needs_heir : SwitchError
  unknown_selector : ℕ → SwitchError

unfoldable pub switches_addr : Bytes
unfolding precompile_addr_hex
switches_addr = precompile_addr_hex 21

-- `writeUint64(0)` as a key, which is not hashed
unfoldable pub total_switches : Bytes
unfolding word
total_switches = word 0

-- Bytes 1 to 8, 9 to 16, and 17 of a switch.
unfoldable pub interval_of : ℕ → ℕ
interval_of slot = slot / 2 ^ 184 % 2 ^ 64

unfoldable pub last_heartbeat_of : ℕ → ℕ
last_heartbeat_of slot = slot / 2 ^ 120 % 2 ^ 64

unfoldable pub state_of : ℕ → ℕ
state_of slot = slot / 2 ^ 112 % 256

unfoldable pub with_heartbeat : ℕ → ℕ → ℕ
with_heartbeat slot block = slot / 2 ^ 184 * 2 ^ 184 + block % 2 ^ 64 * 2 ^ 120 + slot % 2 ^ 120

unfoldable pub with_state : ℕ → ℕ → ℕ
with_state slot state = slot / 2 ^ 120 * 2 ^ 120 + state * 2 ^ 112 + slot % 2 ^ 112

-- A new switch: active, with its first heartbeat.
unfoldable pub new_switch : ℕ → ℕ → ℕ → ℕ
new_switch truth_type interval block =
    truth_type * 2 ^ 248 + interval * 2 ^ 184 + block * 2 ^ 120 + block * 2 ^ 48

-- `lastHB + interval`
unfoldable pub deadline_of : ℕ → ℕ
unfolding last_heartbeat_of interval_of
deadline_of slot = (last_heartbeat_of slot + interval_of slot) % 2 ^ 64

-- `readUint64`
unfoldable pub low_uint64 : ℕ → ℕ
low_uint64 slot = slot % 2 ^ 64

module _ ⦃h : Sha256⦄ where
  unfoldable pub switch_key : ℕ → Bytes
  unfolding number_bytes
  switch_key id = storage_key (16 ∷ number_bytes id)

  -- createSwitch. The slice of the key reference is a panic where the input is too short. The heir,
  -- the owner and the reference are not stored.
  unfoldable pub create_switch : Bytes → ℕ → Call SwitchError Bytes
  unfolding new_switch low_uint64 switch_key
  create_switch input block = do
    must_have (length input) 65
    (let interval = read_uint64 input 25 in
        require (leb 86400 interval && leb interval 31536000) invalid_interval)
    require (not ((read_byte input 4 == 0) && (read_uint64 (read_address input 5) 0 == 0)))
        needs_heir
    total ← load switches_addr total_switches
    (let id = (low_uint64 total + 1) % 2 ^ 64 in
        do
          store switches_addr total_switches id
          store switches_addr (switch_key id)
              (new_switch (read_byte input 4) (read_uint64 input 25) block)
          pure (be_bytes 8 id))
    where
      must_have : ℕ → ℕ → Call SwitchError (Unit {0})
      must_have len n s = (if leb n len then ok tt else panic, s)

  -- What a call does to the switch that the input names: it is refused where that is not active or
  -- the test fails.
  unfoldable pub change_switch : Bytes → (ℕ → Bool) → (ℕ → ℕ) → Call SwitchError Bytes
  unfolding state_of switch_key
  change_switch input test change = do
    slot ← load switches_addr (switch_key (read_uint64 input 4))
    (if state_of slot == 0
        then if test slot
          then store switches_addr (switch_key (read_uint64 input 4)) (change slot) >> pure (1 ∷ [])
          else pure (0 ∷ [])
        else pure (0 ∷ []))

  -- heartbeat, whoever calls
  unfoldable pub heartbeat : Bytes → ℕ → Call SwitchError Bytes
  unfolding change_switch with_heartbeat
  heartbeat input block = change_switch input (λ slot. true) (λ slot. with_heartbeat slot block)

  -- claim, whoever calls
  unfoldable pub claim : Bytes → ℕ → Call SwitchError Bytes
  unfolding change_switch with_state deadline_of
  claim input block =
      change_switch input (λ slot. ltb (deadline_of slot) block) (λ slot. with_state slot 2)

  -- cancel, whoever calls
  unfoldable pub cancel : Bytes → Call SwitchError Bytes
  unfolding change_switch with_state
  cancel input = change_switch input (λ slot. true) (λ slot. with_state slot 3)

  -- canClaim
  unfoldable pub can_claim : Bytes → ℕ → Call SwitchError Bytes
  unfolding state_of deadline_of switch_key
  can_claim input block = do
    slot ← load switches_addr (switch_key (read_uint64 input 4))
    (if (state_of slot == 0) && ltb (deadline_of slot) block then pure (1 ∷ []) else pure (0 ∷ []))

  -- timeUntilClaimable
  unfoldable pub time_until_claimable : Bytes → ℕ → Call SwitchError Bytes
  unfolding state_of deadline_of switch_key
  time_until_claimable input block = do
    slot ← load switches_addr (switch_key (read_uint64 input 4))
    (if (state_of slot == 0) && ltb block (deadline_of slot)
        then pure (be_bytes 8 (deadline_of slot - block))
        else pure (be_bytes 8 0))

  unfoldable pub dead_man_switch_precompile : Bytes → ℕ → Call SwitchError Bytes
  unfolding create_switch heartbeat claim cancel can_claim time_until_claimable low_uint64
      switch_key
  dead_man_switch_precompile input block = do
    open_account switches_addr
    (let sel = selector_bytes input in
        if sel == 0x7F78EDCF
        then create_switch input block
        else if sel == 0x7018B39E
        then heartbeat input block
        else if sel == 0x40FADB8B
        then claim input block
        else if sel == 0x26C1497E
        then cancel input
        else if sel == 0xA688A635
        then can_claim input block
        else if sel == 0xD75235C5
        then time_until_claimable input block
        else if sel == 0x0034AFAA
        then (load switches_addr (switch_key (read_uint64 input 4)) >>= λ slot. fill_bytes slot)
        else if sel == 0x890219ED
        then (load switches_addr total_switches >>= λ total. pure (be_bytes 8 (low_uint64 total)))
        else λ s. (err (unknown_selector sel), s))
