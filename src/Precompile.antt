-- ===== src/Precompile.antt =====
-- What the precompiles of evm/ share: the calling convention, the reading of the input, and slots
-- (the helpers of evm/precompiles.go, `readSlot` and `writeSlot` of evm/two_way.go, `boolResult` of
-- evm/account_manager.go).
-- A precompile call is an action on the state database. What it has written stays written when it
-- returns an error. A panic ends the process.
pub mod Laws
use waychain_consensus.Prelude.{
  ℕ, zero, suc, ◌+◌, ◌*◌, ◌/◌, ◌%◌, ◌^◌, ◌-◌, Bool, true, false, List, [], ◌∷◌, ◌++◌, ltb, leb,
  ◌==◌, if◌then◌else◌, Bytes, codes, slice, be_value, hex2, length, get_or, Outcome, ok, err, panic,
  replicate,
}
use waychain_consensus.Hashing.{Sha256}
use waychain_consensus.State.{Account, StateDb, account_at, touch, add_log}
use waychain_consensus.State.Storage.{sload, sstore}

abbrev pub Call {ℓ} : Type 0 → Type ℓ → Type ℓ
Call E A = StateDb → Outcome E A × StateDb

module _ {E : Type 0} where
  abbrev pub pure {ℓ} : {A : Type ℓ} → A → Call E A
  pure a s = (ok a, s)

  infixl 5 ◌>>=◌ ◌>>◌
  abbrev pub ◌>>=◌ {ℓ κ} : {A : Type ℓ} {B : Type κ} → Call E A → (A → Call E B) → Call E B
  ◌>>=◌ m f s = elim (m s).0 [
    | ok a ↦ f a (m s).1
    | err e ↦ (err e, (m s).1)
    | panic ↦ (panic, (m s).1)
  ]

  abbrev pub ◌>>◌ {ℓ κ} : {A : Type ℓ} {B : Type κ} → Call E A → Call E B → Call E B
  m >> k = m >>= λ _. k

  -- `if !cond { return nil, err }`
  abbrev pub require : Bool → E → Call E (Unit {0})
  require cond e s = (if cond then ok tt else err e, s)

  -- `acc := state.GetOrCreateAccount(addr)`
  abbrev pub open_account : Bytes → Call E (Unit {0})
  open_account addr s = (ok tt, touch addr s)

  -- `acc.Storage[key]`
  abbrev pub load : Bytes → Bytes → Call E ℕ
  load addr key s = (ok (sload addr key s), s)

  -- `acc.Storage[key] = v`
  abbrev pub store : Bytes → Bytes → ℕ → Call E (Unit {0})
  store addr key v s = (ok tt, sstore addr key v s)

  -- `acc.Storage[key] = writeSlot(v)`: a number of more than 32 bytes is a negative slice bound.
  abbrev pub store_big : Bytes → Bytes → ℕ → Call E (Unit {0})
  store_big addr key v s = if ltb v (2 ^ 256) then (ok tt, sstore addr key v s) else (panic, s)

  -- `state.AddLog`
  abbrev pub emit : Bytes → List Bytes → Bytes → ℕ → Call E (Unit {0})
  emit addr topics payload block s = (ok tt, add_log addr topics payload block s)

-- `PrecompileAddrHex`
unfoldable pub precompile_addr_hex : ℕ → Bytes
unfolding hex2
precompile_addr_hex addr = codes "00000000000000000000000000000000000000" ++ hex2 addr

-- `storageKey`
abbrev pub storage_key : ⦃h : Sha256⦄ → Bytes → Bytes
storage_key ⦃h⦄ bs = h.sum256 bs

-- The `n` lowest bytes of a number, most significant first.
unfoldable pub be_bytes : ℕ → ℕ → Bytes
be_bytes zero v = []
be_bytes (suc n) v = (v / 256 ^ n % 256) ∷ be_bytes n v

-- `v.FillBytes(make([]byte, 32))` for a number below 2^256
unfoldable pub word : ℕ → Bytes
unfolding be_bytes
word v = be_bytes 32 v

-- `v.FillBytes(out)`, which panics where the number has more than 32 bytes
abbrev pub fill_bytes : {E : Type 0} → ℕ → Call E Bytes
fill_bytes v s = (if ltb v (2 ^ 256) then ok (word v) else panic, s)

strip_zeros : Bytes → Bytes
strip_zeros [] = []
strip_zeros (b ∷ bs) = if b == 0 then strip_zeros bs else b ∷ bs

-- `v.Bytes()`
unfoldable pub big_bytes : ℕ → Bytes
unfolding strip_zeros be_bytes
big_bytes v = strip_zeros (be_bytes 32 v)

-- `boolResult(true)`: 31 zeros and a one
abbrev pub bool_result : Bool → Bytes
bool_result b = replicate 31 0 ++ (if b then 1 else 0) ∷ []

-- `selectorBytes`
unfoldable pub selector_bytes : Bytes → ℕ
unfolding be_value
selector_bytes input = if ltb (length input) 4 then 0 else be_value (slice input 0 4)

-- `readSlot` and `readUint256`: 0 where the input is too short
unfoldable pub read_slot : Bytes → ℕ → ℕ
unfolding be_value
read_slot input offset =
    if leb (offset + 32) (length input) then be_value (slice input offset (offset + 32)) else 0

-- `readUint64FromInput` and `readUint64FromBytes`
unfoldable pub read_uint64 : Bytes → ℕ → ℕ
unfolding be_value
read_uint64 input offset =
    if leb (offset + 8) (length input) then be_value (slice input offset (offset + 8)) else 0

-- `readAddress`: twenty zeros where the input is too short
unfoldable pub read_address : Bytes → ℕ → Bytes
read_address input offset =
    if leb (offset + 20) (length input) then slice input offset (offset + 20) else replicate 20 0

-- `readByte`, and `input[offset]` where the length has been checked
unfoldable pub read_byte : Bytes → ℕ → ℕ
read_byte input offset = get_or input offset 0

-- `abs(a - b)`: what `writeSlot(new(big.Int).Sub(a, b))` stores, since `Bytes()` drops the sign
abbrev pub abs_diff : ℕ → ℕ → ℕ
abs_diff a b = if ltb a b then b - a else a - b
