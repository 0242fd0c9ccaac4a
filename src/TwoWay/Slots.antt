-- ===== src/TwoWay/Slots.antt =====
-- The slots of the vaults' account, and what a write does to the collateral of a vault.
use waychain_consensus.Prelude.{
  ℕ, ◌-◌, ◌≡◌, refl, List, [], ◌∷◌, arith, if◌then◌else◌, Bytes, bytes_key, bytes_eq, bytes_eq_iff,
  bytes_eq_refl, insert, ap,
}
use waychain_consensus.State.{StateDb, account_at, touch, add_log}
use waychain_consensus.State.Storage.{
  sload, sstore, sload-sstore, sload-touch, sload-add_log, account_at-touch, account_at-add_log,
  account_at-put_account,
}
use waychain_consensus.StabilityPool.{pool_addr, vault_addr, debt_key}
use waychain_consensus.TwoWay.{collateral_name, collaterals_in}

-- `acc.Storage` and one of its slots
unfoldable pub slots_of : StateDb → List (Bytes × ℕ)
slots_of s = (account_at vault_addr s).storage

unfoldable pub at : Bytes → StateDb → ℕ
at key s = sload vault_addr key s

pub slots_of-touch : (b : Bytes) (s : StateDb) → slots_of (touch b s) ≡ slots_of s
unfolding slots_of
slots_of-touch b s = ap (λ acc. acc.storage) (account_at-touch vault_addr b s)

pub slots_of-sstore :
    (key : Bytes) (v : ℕ) (s : StateDb)
    → slots_of (sstore vault_addr key v s) ≡ insert key v (slots_of s)
unfolding slots_of sstore
slots_of-sstore key v s = ground (
  arith,
  account_at-put_account vault_addr vault_addr
      (record (account_at vault_addr s) {
        storage = insert key v (account_at vault_addr s).storage;
      })
      s,
  bytes_eq_refl vault_addr,
)

-- A write to the pool's account leaves the vaults' account alone.
pub slots_of-pool :
    (key : Bytes) (v : ℕ) (s : StateDb) → slots_of (sstore pool_addr key v s) ≡ slots_of s
unfolding slots_of sstore bytes_eq pool_addr vault_addr
slots_of-pool key v s = ground (
  arith,
  account_at-put_account vault_addr pool_addr
      (record (account_at pool_addr s) { storage = insert key v (account_at pool_addr s).storage })
      s,
)

pub at-touch : (key b : Bytes) (s : StateDb) → at key (touch b s) ≡ at key s
unfolding at
at-touch key b s = sload-touch vault_addr key b s

pub at-sstore :
    (key j : Bytes) (v : ℕ) (s : StateDb)
    → at key (sstore vault_addr j v s) ≡ (if bytes_eq j key then v else at key s)
unfolding at
at-sstore key j v s =
    ground (arith, sload-sstore vault_addr key vault_addr j v s, bytes_eq_refl vault_addr)

pub at-add_log :
    (key a : Bytes) (ts : List Bytes) (d : Bytes) (n : ℕ) (s : StateDb)
    → at key (add_log a ts d n s) ≡ at key s
unfolding at
at-add_log key a ts d n s = sload-add_log vault_addr key a ts d n s

pub at-pool : (key j : Bytes) (v : ℕ) (s : StateDb) → at key (sstore pool_addr j v s) ≡ at key s
unfolding at bytes_eq pool_addr vault_addr
at-pool key j v s = sload-sstore vault_addr key pool_addr j v s

-- `acc.Storage[key] -= amount`, stopping at zero
unfoldable pub lower_at : Bytes → Bytes → ℕ → StateDb → StateDb
lower_at addr key amount s = sstore addr key (sload addr key s - amount) s

pub at-lower_at :
    (j key : Bytes) (a : ℕ) (s : StateDb)
    → at j (lower_at vault_addr key a s) ≡ (if bytes_eq key j then at key s - a else at j s)
unfolding lower_at at
at-lower_at j key a s = at-sstore j key (sload vault_addr key s - a) s

pub at-lower_at_pool :
    (j key : Bytes) (a : ℕ) (s : StateDb) → at j (lower_at pool_addr key a s) ≡ at j s
unfolding lower_at
at-lower_at_pool j key a s = at-pool j key (sload pool_addr key s - a) s

pub slots_of-add_log :
    (a : Bytes) (ts : List Bytes) (d : Bytes) (n : ℕ) (s : StateDb)
    → slots_of (add_log a ts d n s) ≡ slots_of s
unfolding slots_of
slots_of-add_log a ts d n s = ap (λ acc. acc.storage) (account_at-add_log vault_addr a ts d n s)

pub slots_of-lower_at :
    (key : Bytes) (a : ℕ) (s : StateDb)
    → slots_of (lower_at vault_addr key a s) ≡ insert key (at key s - a) (slots_of s)
unfolding lower_at at
slots_of-lower_at key a s = slots_of-sstore key (sload vault_addr key s - a) s

-- A slot that is no collateral of a vault does not count there.
pub collaterals_in-insert :
    (vault_id key : Bytes) (v : ℕ) (slots : List (Bytes × ℕ))
    → collateral_name vault_id key ≡ []
    → collaterals_in vault_id (insert key v slots) ≡ collaterals_in vault_id slots
unfolding collaterals_in insert
collaterals_in-insert vault_id key v [] e = ground (arith, e)
collaterals_in-insert vault_id key v ((j, w) ∷ slots) e =
    ground (arith, collaterals_in-insert vault_id key v slots e, bytes_eq_iff j key, e)

pub collateral_name-debt_key : (vault_id v : Bytes) → collateral_name vault_id (debt_key v) ≡ []
unfolding collateral_name
collateral_name-debt_key vault_id v = refl
