-- ===== src/State.antt =====
-- evm/state.go: accounts, the state database, logs, and the gates on deployment.
-- An address is a Go string, here its bytes. A storage key ([32]byte) is a byte string; a storage
-- value ([32]byte) is the number below 2^256 that its bytes spell, most significant first, with 0
-- for a key that the map lacks. Balances are `big.Int`s, which may fall below zero.
pub mod Storage
use waychain_consensus.Prelude.{
  ℕ, ◌≡◌, Bool, true, false, List, [], ◌∷◌, ◌++◌, Option, none, some, ltb, ◌==◌, if◌then◌else◌,
  Bytes, bytes_key, lookup, lookup_or, contains_key, insert, Outcome, ok, err,
}
use waychain_consensus.Prelude.Int.{ℤ, pos}
use waychain_consensus.Hashing.{Sha256}

-- `LaneType`, a byte
abbrev pub consensus_lane : ℕ
consensus_lane = 0

abbrev pub oracle_lane : ℕ
oracle_lane = 1

abbrev pub private_lane : ℕ
private_lane = 2

-- `ContractClass`, a byte
abbrev pub class_none : ℕ
class_none = 0

abbrev pub class_a : ℕ
class_a = 1

abbrev pub class_b : ℕ
class_b = 2

abbrev pub class_c : ℕ
class_c = 3

abbrev pub class_d : ℕ
class_d = 4

pub record Account : Type 0 where
  pub nonce : ℕ
  pub balance : ℤ
  pub code_hash : Bytes
  pub code : Bytes
  pub storage : List (Bytes × ℕ)
  pub contract_class : ℕ
  pub dox_dev_level : ℕ
  pub state_rent_paid : ℤ
  pub last_rent_payment : ℕ

abbrev pub new_account : Account
new_account = record {
  nonce = 0;
  balance = pos 0;
  code_hash = [];
  code = [];
  storage = [];
  contract_class = class_none;
  dox_dev_level = 0;
  state_rent_paid = pos 0;
  last_rent_payment = 0;
}

pub record LogEntry : Type 0 where
  pub address : Bytes
  pub topics : List Bytes
  pub payload : Bytes
  pub block : ℕ

pub record StateDb : Type 0 where
  pub accounts : List (Bytes × Account)
  pub logs : List LogEntry
  pub refunds : ℕ

abbrev pub new_state_db : StateDb
new_state_db = record { accounts = []; logs = []; refunds = 0 }

-- `GetAccount`: `none` is nil.
unfoldable pub get_account : Bytes → StateDb → Option Account
get_account addr s = lookup addr s.accounts

-- The account that `GetOrCreateAccount` returns, and the state that it leaves.
unfoldable pub account_at : Bytes → StateDb → Account
account_at addr s = lookup_or new_account addr s.accounts

unfoldable pub put_account : Bytes → Account → StateDb → StateDb
put_account addr acc s = record s { accounts = insert addr acc s.accounts }

unfoldable pub touch : Bytes → StateDb → StateDb
unfolding put_account
touch addr s = elim (lookup addr s.accounts) [
  | none ↦ put_account addr new_account s
  | some acc ↦ s
]

unfoldable pub exist : Bytes → StateDb → Bool
exist addr s = contains_key addr s.accounts

-- `CreateAccount`
unfoldable pub create_account : ⦃h : Sha256⦄ → Bytes → Bytes → StateDb → StateDb
unfolding put_account
create_account ⦃h⦄ addr code =
    put_account addr (record new_account { code_hash = h.sum256 code; code = code })

unfoldable pub add_log : Bytes → List Bytes → Bytes → ℕ → StateDb → StateDb
add_log addr topics payload block s = record s { logs = s.logs ++ entry ∷ [] }
  where
    entry : LogEntry
    entry = record { address = addr; topics = topics; payload = payload; block = block }

pub data DeployError : Type 0 where
  class_needs_level : ℕ → ℕ → DeployError
  needs_governance : DeployError
  deploy_needs_level : ℕ → DeployError

unfoldable pub enforce_contract_class : ℕ → ℕ → Outcome DeployError (Unit {0})
enforce_contract_class level class =
    if class == class_a
    then ok tt
    else if class == class_b
    then (if ltb level 2 then err (class_needs_level class level) else ok tt)
    else if class == class_c
    then (if ltb level 3 then err (class_needs_level class level) else ok tt)
    else if class == class_d
    then err needs_governance
    else ok tt

unfoldable pub can_deploy_contract : ℕ → Outcome DeployError (Unit {0})
can_deploy_contract level = if ltb level 2 then err (deploy_needs_level level) else ok tt
