-- ===== src/Badges.antt =====
-- evm/precompiles.go, the badges of developers and their curators (precompile 0x13). A badge is one
-- slot: the level, the block of its end of eight bytes, the flag of its revocation, and at byte 17
-- the block of its issue. Curators are kept under the text of a caller or under an address.
pub mod Curating
pub mod Levels
mod Tests
use waychain_consensus.Prelude.{
  ℕ, suc, ◌+◌, ◌*◌, ◌/◌, ◌%◌, ◌-◌, ◌^◌, Bool, true, false, ◌&&◌, ◌||◌, not, [], ◌∷◌, ltb, leb, ◌==◌,
  if◌then◌else◌, Bytes, length, slice, be_value, ok, err,
}
use waychain_consensus.Hashing.{Sha256}
use waychain_consensus.Precompile.{
  Call, pure, ◌>>=◌, ◌>>◌, require, open_account, load, store, precompile_addr_hex, storage_key,
  word, be_bytes, selector_bytes, read_uint64, read_address, read_byte,
}
use waychain_consensus.Serialize.Numbers.{number_bytes}

pub data BadgeError : Type 0 where
  input_too_short : BadgeError
  unknown_selector : ℕ → BadgeError

unfoldable pub badges_addr : Bytes
unfolding precompile_addr_hex
badges_addr = precompile_addr_hex 19

-- `writeUint64(0)` and `writeUint64(1)` as keys, which are not hashed
unfoldable pub total_badges : Bytes
unfolding word
total_badges = word 0

unfoldable pub curator_count : Bytes
unfolding word
curator_count = word 1

-- Byte 0, bytes 1 to 8, and byte 9 of a badge.
unfoldable pub level_byte : ℕ → ℕ
level_byte slot = slot / 2 ^ 248 % 256

unfoldable pub expires_at : ℕ → ℕ
expires_at slot = slot / 2 ^ 184 % 2 ^ 64

unfoldable pub revoked_byte : ℕ → ℕ
revoked_byte slot = slot / 2 ^ 176 % 256

unfoldable pub with_level : ℕ → ℕ → ℕ
with_level slot level = level * 2 ^ 248 + slot % 2 ^ 248

unfoldable pub revoked : ℕ → ℕ
revoked slot = slot / 2 ^ 184 * 2 ^ 184 + 2 ^ 176 + slot % 2 ^ 176

unfoldable pub new_badge : ℕ → ℕ → ℕ → ℕ
new_badge level expires block = level * 2 ^ 248 + expires * 2 ^ 184 + block * 2 ^ 56

-- `readUint64`
unfoldable pub low_uint64 : ℕ → ℕ
low_uint64 slot = slot % 2 ^ 64

-- An address in the first 20 bytes of a slot, and the other bytes as they were.
unfoldable pub with_address : Bytes → ℕ → ℕ
with_address addr slot = be_value addr * 2 ^ 96 + slot % 2 ^ 96

abbrev pub answer : Bool → Call BadgeError Bytes
answer b = pure ((if b then 1 else 0) ∷ [])

-- What isVerified and hasMinLevel answer of a badge.
unfoldable pub is_verified : ℕ → ℕ → Bool
unfolding level_byte expires_at revoked_byte
is_verified slot block =
    not (slot == 0)
    && not (level_byte slot == 0)
    && (revoked_byte slot == 0)
    && not (ltb 0 (expires_at slot) && ltb (expires_at slot) block)

unfoldable pub has_min_level : ℕ → ℕ → Bool
unfolding level_byte revoked_byte
has_min_level slot level =
    not (slot == 0)
    && not (level_byte slot == 0)
    && (revoked_byte slot == 0)
    && leb level (level_byte slot)

module _ ⦃h : Sha256⦄ where
  abbrev pub badge_key : Bytes → Bytes
  badge_key addr = storage_key (16 ∷ addr)

  unfoldable pub token_key : ℕ → Bytes
  unfolding number_bytes
  token_key id = storage_key (32 ∷ number_bytes id)

  -- The key of a caller's text and of an address alike.
  abbrev pub curator_key : Bytes → Bytes
  curator_key who = storage_key (48 ∷ who)

  -- The check that the caller is a curator, and what is done then; else the answer is no.
  unfoldable pub as_curator : Bytes → Call BadgeError Bytes → Call BadgeError Bytes
  unfolding low_uint64
  as_curator caller action = do
    flag ← load badges_addr (curator_key caller)
    if low_uint64 flag == 0 then answer false else action

  -- The writes of issueBadge.
  unfoldable pub write_badge : Bytes → ℕ → ℕ → ℕ → Call BadgeError Bytes
  unfolding low_uint64 new_badge token_key with_address
  write_badge target level validity block = do
    total ← load badges_addr total_badges
    (let id = (low_uint64 total + 1) % 2 ^ 64 in
        do
          store badges_addr total_badges id
          store badges_addr (badge_key target)
              (new_badge level (if ltb 0 validity then (block + validity) % 2 ^ 64 else 0) block)
          owner ← load badges_addr (token_key id)
          store badges_addr (token_key id) (with_address target owner)
          answer true)

  -- issueBadge
  unfoldable pub issue_badge : Bytes → Bytes → ℕ → Call BadgeError Bytes
  unfolding as_curator write_badge revoked_byte
  issue_badge input caller block =
      if ltb (read_byte input 24) 1 || ltb 3 (read_byte input 24)
      then answer false
      else as_curator caller (do
        existing ← load badges_addr (badge_key (read_address input 4))
        (if not (existing == 0) && (revoked_byte existing == 0)
            then answer false
            else write_badge (read_address input 4) (read_byte input 24) (read_uint64 input 25)
                block))

  -- revokeBadge
  unfoldable pub revoke_badge : Bytes → Bytes → Call BadgeError Bytes
  unfolding as_curator revoked revoked_byte
  revoke_badge input caller = as_curator caller (do
    slot ← load badges_addr (badge_key (read_address input 4))
    (if (slot == 0) || not (revoked_byte slot == 0)
        then answer false
        else store badges_addr (badge_key (read_address input 4)) (revoked slot) >> answer true))

  -- upgradeBadge
  unfoldable pub upgrade_badge : Bytes → Bytes → Call BadgeError Bytes
  unfolding as_curator with_level level_byte revoked_byte
  upgrade_badge input caller = as_curator caller (
      if ltb (read_byte input 24) 1 || ltb 3 (read_byte input 24) then answer false else do
        slot ← load badges_addr (badge_key (read_address input 4))
        (if (level_byte slot == 0)
              || not (revoked_byte slot == 0)
              || leb (read_byte input 24) (level_byte slot)
            then answer false
            else store badges_addr (badge_key (read_address input 4))
                (with_level slot (read_byte input 24))
              >> answer true))

  -- addCurator, which keeps the curator under the bytes of the address
  unfoldable pub add_curator : Bytes → Bytes → Call BadgeError Bytes
  unfolding as_curator low_uint64
  add_curator input caller = as_curator caller (do
    flag ← load badges_addr (curator_key (read_address input 4))
    (if not (low_uint64 flag == 0) then answer false else do
      store badges_addr (curator_key (read_address input 4)) 1
      count ← load badges_addr curator_count
      store badges_addr curator_count ((low_uint64 count + 1) % 2 ^ 64)
      answer true))

  -- removeCurator, which lowers the count only where it is above 3
  unfoldable pub remove_curator : Bytes → Bytes → Call BadgeError Bytes
  unfolding as_curator low_uint64
  remove_curator input caller = as_curator caller (do
    flag ← load badges_addr (curator_key (read_address input 4))
    (if low_uint64 flag == 0 then answer false else do
      store badges_addr (curator_key (read_address input 4)) 0
      count ← load badges_addr curator_count
      (if ltb 3 (low_uint64 count)
          then store badges_addr curator_count (low_uint64 count - 1) >> answer true
          else answer true)))

  -- doxApply
  unfoldable pub dox_apply : Bytes → Bytes → Call BadgeError Bytes
  dox_apply input caller = do
    require (leb 84 (length input)) input_too_short
    store badges_addr (storage_key (64 ∷ caller)) (be_value (read_address input 68) * 2 ^ 80)
    store badges_addr (storage_key (65 ∷ caller)) (be_value (slice input 4 36))
    store badges_addr (storage_key (66 ∷ caller)) (be_value (slice input 36 68))
    answer true

  unfoldable pub dox_dev_badge_precompile : Bytes → Bytes → ℕ → Call BadgeError Bytes
  unfolding issue_badge revoke_badge upgrade_badge add_curator remove_curator dox_apply is_verified
      has_min_level low_uint64 level_byte
  dox_dev_badge_precompile input caller block = do
    open_account badges_addr
    (let sel = selector_bytes input in
        if sel == 0x9E9F1846
        then (load badges_addr (badge_key (read_address input 4)) >>= λ slot.
            pure (level_byte slot ∷ []))
        else if sel == 0x65274728
        then (load badges_addr (badge_key (read_address input 4)) >>= λ slot.
            answer (is_verified slot block))
        else if sel == 0x7B245AFA
        then (load badges_addr (badge_key (read_address input 4)) >>= λ slot.
            answer (has_min_level slot (read_byte input 24)))
        else if sel == 0x5FCF5764
        then (load badges_addr curator_count >>= λ count. pure (be_bytes 8 (low_uint64 count)))
        else if sel == 0xE55B5B05
        then (load badges_addr total_badges >>= λ total. pure (be_bytes 8 (low_uint64 total)))
        else if sel == 0x0210186D
        then issue_badge input caller block
        else if sel == 0xB911F9C7
        then revoke_badge input caller
        else if sel == 0x215F898D
        then upgrade_badge input caller
        else if sel == 0x0F9BD4BD
        then add_curator input caller
        else if sel == 0xD52CDF2D
        then remove_curator input caller
        else if sel == 0x1A2B3C4D
        then dox_apply input caller
        else λ s. (err (unknown_selector sel), s))
