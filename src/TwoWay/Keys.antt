-- ===== src/TwoWay/Keys.antt =====
-- evm/two_way.go: the errors, the keys of the slots, and what is read off a list of collateral.
use waychain_consensus.Prelude.{
  ℕ, ◌+◌, ◌*◌, ◌/◌, ◌%◌, ◌-◌, ◌^◌, Bool, true, false, List, [], ◌∷◌, ◌++◌, ◌&&◌, leb, ◌==◌,
  if◌then◌else◌, Bytes, bytes_key, codes, length, slice, take, replicate,
}

pub data VaultError : Type 0 where
  input_too_short : VaultError
  deposit_too_short : VaultError
  collateral_not_accepted : Bytes → VaultError
  mint_too_short : VaultError
  active_debt : VaultError
  provides_liquidity : VaultError
  no_collateral : VaultError
  mint_below_ratio : VaultError
  withdraw_too_short : VaultError
  exceeds_deposit : VaultError
  withdraw_below_ratio : VaultError
  burn_too_short : VaultError
  liquidate_too_short : VaultError
  above_liquidation_ratio : VaultError
  get_vault_too_short : VaultError
  get_price_too_short : VaultError
  set_price_too_short : VaultError
  not_an_oracle : VaultError
  unknown_selector : ℕ → VaultError

-- `trimRightZeros`
unfoldable pub trim_right_zeros : Bytes → Bytes
trim_right_zeros [] = []
trim_right_zeros (b ∷ bs) = elim (trim_right_zeros bs) [
  | [] ↦ if b == 0 then [] else b ∷ []
  | c ∷ cs ↦ b ∷ c ∷ cs
]

-- `hasPrefix`
unfoldable pub has_prefix : Bytes → Bytes → Bool
has_prefix bs [] = true
has_prefix [] (p ∷ ps) = false
has_prefix (b ∷ bs) (p ∷ ps) = (b == p) && has_prefix bs ps

-- `collateralKey`: the prefix, 20 bytes of the identifier, and 11 bytes of the name, not hashed
abbrev pub collateral_key : Bytes → Bytes → Bytes
collateral_key vault_id name =
    2 ∷ (slice vault_id 0 20 ++ (take 11 name ++ replicate (11 - length (take 11 name)) 0))

-- The hashed text of each key.
abbrev pub param_slot : Bytes → Bytes
param_slot key = 4 ∷ key

abbrev pub total_debt : Bytes
total_debt = codes "totalDebt"

abbrev pub vault_count : Bytes
vault_count = codes "vaultCount"

abbrev pub price_slot : Bytes → Bytes
price_slot name = codes "price:" ++ name

-- A name and an amount for each kind of collateral.
abbrev pub Collaterals : Type 0
Collaterals = List (Bytes × ℕ)

-- The name that a storage key holds for a vault, empty for a key of anything else.
unfoldable pub collateral_name : Bytes → Bytes → Bytes
unfolding trim_right_zeros has_prefix
collateral_name vault_id [] = []
collateral_name vault_id (b ∷ bs) =
    if b == 2
    then (if has_prefix (slice bs 0 20) (slice vault_id 0 20)
        then trim_right_zeros (slice bs 20 31)
        else [])
    else []

-- The loop of `getVaultCollaterals`. Keys of 32 bytes that belong to one vault differ in their last 11
-- bytes, so each name is met once.
unfoldable pub collaterals_in : Bytes → List (Bytes × ℕ) → Collaterals
unfolding collateral_name
collaterals_in vault_id [] = []
collaterals_in vault_id ((key, amount) ∷ slots) =
    let rest = collaterals_in vault_id slots in
    elim (collateral_name vault_id key) [ [] ↦ rest | c ∷ cs ↦ (c ∷ cs, amount) ∷ rest ]

unfoldable pub total_of : Collaterals → ℕ
total_of [] = 0
total_of ((name, amount) ∷ cs) = amount + total_of cs

-- `isAboveMinCRatio`
unfoldable pub is_above_min_c_ratio : Collaterals → ℕ → ℕ → Bool
unfolding total_of
is_above_min_c_ratio cs debt additional =
    if debt + additional == 0 then true else leb 13000 (total_of cs * 10000 / (debt + additional))

-- `readUint16`
abbrev pub read_uint16 : ℕ → ℕ → ℕ
read_uint16 slot fallback = if slot % 2 ^ 64 == 0 then fallback else slot % 2 ^ 16
