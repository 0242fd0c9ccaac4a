-- ===== src/State/Storage.antt =====
-- Reads after writes: accounts, storage slots and logs. A precompile keeps its data in the storage
-- of one account; `sload` and `sstore` are `acc.Storage[key]` and `acc.Storage[key] = v` for the
-- account that `GetOrCreateAccount` returns.
use waychain_consensus.Prelude.{
  ℕ, ◌≡◌, refl, Bool, true, false, Option, none, some, arith, if◌then◌else◌, Bytes, bytes_eq,
  bytes_key, bytes_eq_refl, lookup, lookup_or, insert, lookup-insert, lookup_or-insert,
  bytes_eq_iff, ap, List, ◌++◌, ◌∷◌, [],
}
use waychain_consensus.State.{
  Account, StateDb, new_account, account_at, put_account, touch, add_log,
}

unfoldable pub sload : Bytes → Bytes → StateDb → ℕ
sload addr key s = lookup_or 0 key (account_at addr s).storage

unfoldable pub sstore : Bytes → Bytes → ℕ → StateDb → StateDb
sstore addr key v s =
    put_account addr
      (record (account_at addr s) { storage = insert key v (account_at addr s).storage }) s

-- The Dox_Dev level that the state records, 0 for an unknown account.
unfoldable pub level_of : Bytes → StateDb → ℕ
level_of addr s = (account_at addr s).dox_dev_level

pub account_at-put_account :
    (a b : Bytes) (acc : Account) (s : StateDb)
    → account_at a (put_account b acc s) ≡ (if bytes_eq b a then acc else account_at a s)
unfolding account_at put_account
account_at-put_account a b acc s = lookup_or-insert new_account b a acc s.accounts

pub account_at-touch : (a b : Bytes) (s : StateDb) → account_at a (touch b s) ≡ account_at a s
unfolding account_at touch put_account lookup_or
account_at-touch a b s = ground (arith, lookup-insert b a new_account s.accounts, bytes_eq_iff b a)

pub account_at-add_log :
    (a b : Bytes) (ts : List Bytes) (d : Bytes) (n : ℕ) (s : StateDb)
    → account_at a (add_log b ts d n s) ≡ account_at a s
unfolding account_at add_log
account_at-add_log a b ts d n s = refl

pub sload-touch : (a k b : Bytes) (s : StateDb) → sload a k (touch b s) ≡ sload a k s
unfolding sload
sload-touch a k b s = rw (account_at-touch a b s)

pub sload-add_log :
    (a k b : Bytes) (ts : List Bytes) (d : Bytes) (n : ℕ) (s : StateDb)
    → sload a k (add_log b ts d n s) ≡ sload a k s
unfolding sload
sload-add_log a k b ts d n s = rw (account_at-add_log a b ts d n s)

pub sload-sstore :
    (a k b j : Bytes) (v : ℕ) (s : StateDb)
    → sload a k (sstore b j v s)
      ≡ (if bytes_eq b a then (if bytes_eq j k then v else sload a k s) else sload a k s)
unfolding sload sstore
sload-sstore a k b j v s = ground (
  arith,
  account_at-put_account a b
      (record (account_at b s) { storage = insert j v (account_at b s).storage }) s,
  lookup_or-insert 0 j k v (account_at b s).storage,
  bytes_eq_iff b a,
)

-- A write to storage leaves the other fields of every account alone.
pub level_of-sstore :
    (a b j : Bytes) (v : ℕ) (s : StateDb) → level_of a (sstore b j v s) ≡ level_of a s
unfolding level_of sstore
level_of-sstore a b j v s = ground (
  arith,
  account_at-put_account a b
      (record (account_at b s) { storage = insert j v (account_at b s).storage }) s,
  bytes_eq_iff b a,
)

pub level_of-touch : (a b : Bytes) (s : StateDb) → level_of a (touch b s) ≡ level_of a s
unfolding level_of
level_of-touch a b s = rw (account_at-touch a b s, level_of)

pub logs-sstore : (b j : Bytes) (v : ℕ) (s : StateDb) → (sstore b j v s).logs ≡ s.logs
unfolding sstore put_account
logs-sstore b j v s = refl

pub logs-touch : (b : Bytes) (s : StateDb) → (touch b s).logs ≡ s.logs
unfolding touch put_account
logs-touch b s = ground arith

pub ruleset storage_laws = (sload-sstore, sload-touch, sload-add_log, bytes_eq_refl)
