-- ===== src/Badges/Levels.antt =====
-- The fields of a badge after it was issued, upgraded and revoked.
use waychain_consensus.Prelude.{ℕ, ◌^◌, ◌<◌, ◌≡◌, false, arith}
use waychain_consensus.Badges.{
  level_byte, expires_at, revoked_byte, with_level, revoked, new_badge, is_verified, has_min_level,
}

pub new_badge-fields :
    (level expires block : ℕ)
    → level < 256
    → expires < 2 ^ 64
    → block < 2 ^ 64
    → (level_byte (new_badge level expires block) ≡ level)
      × (expires_at (new_badge level expires block) ≡ expires)
      × (revoked_byte (new_badge level expires block) ≡ 0)
unfolding level_byte expires_at revoked_byte new_badge
new_badge-fields level expires block hl he hb = (omega arith, omega arith, omega arith)

pub revoked-fields :
    (slot : ℕ)
    → revoked_byte slot ≡ 0
    → (level_byte (revoked slot) ≡ level_byte slot)
      × (expires_at (revoked slot) ≡ expires_at slot)
      × (revoked_byte (revoked slot) ≡ 1)
unfolding level_byte expires_at revoked_byte revoked
revoked-fields slot h = (omega arith, omega arith, omega arith)

pub with_level-fields :
    (slot level : ℕ)
    → level < 256
    → (level_byte (with_level slot level) ≡ level)
      × (expires_at (with_level slot level) ≡ expires_at slot)
      × (revoked_byte (with_level slot level) ≡ revoked_byte slot)
unfolding level_byte expires_at revoked_byte with_level
with_level-fields slot level h = (omega arith, omega arith, omega arith)

-- A revoked badge has no level for any check.
pub revoked-unverified :
    (slot block level : ℕ)
    → revoked_byte slot ≡ 0
    → (is_verified (revoked slot) block ≡ false) × (has_min_level (revoked slot) level ≡ false)
unfolding is_verified has_min_level
revoked-unverified slot block level h =
    (ground (arith, revoked-fields slot h), ground (arith, revoked-fields slot h))
