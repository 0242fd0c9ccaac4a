-- ===== src/Store.antt =====
-- store/store.go: accounts, blocks, transactions and the node's identity on disk.
-- encoding/gob and bbolt are parameters. A call of `db.Update` keeps the old database where its body
-- or the commit fails.
pub mod Records
pub mod Backend
pub mod Accounts
pub mod Blocks
pub mod Reading
pub mod Buffer
pub mod Updating
mod Tests
use waychain_consensus.Prelude.{
  ℕ, suc, zero, ◌+◌, Bool, true, false, List, [], ◌∷◌, ◌++◌, Option, none, some, ok, err, panic,
  Outcome, if◌then◌else◌, ltb, leb, Bytes, codes, length, take, drop, be_value, map, insert,
  bytes_key,
}
use waychain_consensus.Prelude.Int.{ℤ, pos, negsuc}
use waychain_consensus.State.{Account, StateDb, new_account, new_state_db}
use waychain_consensus.Precompile.{be_bytes}
use waychain_consensus.Serialize.Numbers.{number_bytes}
use waychain_consensus.Store.Records.{SerializedAccount, BlockData, NodeInfo, TxData}
use waychain_consensus.Store.Backend.{
  StoreError, encode_failed, decode_failed, put_failed, commit_failed, serialize_failed, Codec, Gob,
  Bolt,
}

-- `n.Bytes()`, which drops the sign
unfoldable pub magnitude_bytes : ℤ → Bytes
magnitude_bytes (pos n) = number_bytes n
magnitude_bytes (negsuc n) = number_bytes (suc n)

-- What `serializeAccount` hands to gob. The keys and the values stand in the order in which the
-- `range` loop meets them.
unfoldable pub to_serialized : Account → SerializedAccount
unfolding magnitude_bytes
to_serialized acc = record {
  nonce = acc.nonce;
  balance = magnitude_bytes acc.balance;
  code_hash = acc.code_hash;
  code = acc.code;
  storage_keys = map (λ entry. entry.0) acc.storage;
  storage_vals = map (λ entry. entry.1) acc.storage;
  contract_class = acc.contract_class;
  dox_dev_level = acc.dox_dev_level;
  state_rent_paid = magnitude_bytes acc.state_rent_paid;
  last_rent_payment = acc.last_rent_payment;
}

-- The loop over the keys: a key without a value is left out.
unfoldable pub fill_storage : List Bytes → List ℕ → List (Bytes × ℕ) → List (Bytes × ℕ)
fill_storage [] vs m = m
fill_storage (k ∷ ks) [] m = m
fill_storage (k ∷ ks) (v ∷ vs) m = fill_storage ks vs (insert k v m)

-- What `deserializeAccount` makes of what gob returns.
unfoldable pub from_serialized : SerializedAccount → Account
unfolding fill_storage
from_serialized sa = record {
  nonce = sa.nonce;
  balance = pos (be_value sa.balance);
  code_hash = sa.code_hash;
  code = sa.code;
  storage = fill_storage sa.storage_keys sa.storage_vals [];
  contract_class = sa.contract_class;
  dox_dev_level = sa.dox_dev_level;
  state_rent_paid = pos (be_value sa.state_rent_paid);
  last_rent_payment = sa.last_rent_payment;
}

-- `serializeGob`
unfoldable pub serialize_gob : {A : Type 0} → Codec A → A → Outcome StoreError Bytes
serialize_gob codec v = elim (codec.encode v) [ some bs ↦ ok bs | none ↦ err encode_failed ]

-- `deserializeGob`
unfoldable pub deserialize_gob : {A : Type 0} → Codec A → Bytes → Outcome StoreError A
deserialize_gob codec bs = elim (codec.decode bs) [ some v ↦ ok v | none ↦ err decode_failed ]

module _ (gob : Gob) where
  unfoldable pub serialize_account : Account → Outcome StoreError Bytes
  unfolding serialize_gob to_serialized
  serialize_account acc = serialize_gob gob.account (to_serialized acc)

  unfoldable pub deserialize_account : Bytes → Outcome StoreError Account
  unfolding deserialize_gob from_serialized
  deserialize_account bs = elim (deserialize_gob gob.account bs) [
    | ok sa ↦ ok (from_serialized sa)
    | err e ↦ err e
    | panic ↦ panic
  ]

pub record Store (bolt : Bolt) : Type 0 where
  pub db : bolt.Db
  pub height : ℕ

module _ (bolt : Bolt) where
  -- `b.Put`
  unfoldable pub put : Bytes → Bytes → Bytes → bolt.Db → Outcome StoreError bolt.Db
  put bucket key v db = elim (bolt.put bucket key v db) [
    | some new ↦ ok new
    | none ↦ err put_failed
  ]

  -- `CreateBucketIfNotExists`
  unfoldable pub create_bucket : Bytes → bolt.Db → Outcome StoreError bolt.Db
  create_bucket bucket db = elim (bolt.create_bucket bucket db) [
    | some new ↦ ok new
    | none ↦ err put_failed
  ]

  -- `db.Update`
  unfoldable pub update :
      (bolt.Db → Outcome StoreError bolt.Db)
      → Store bolt
      → Outcome StoreError (Unit {0}) × Store bolt
  update body s = elim (body s.db) [
    | ok new ↦ if bolt.commits new then (ok tt, record s { db = new }) else (err commit_failed, s)
    | err e ↦ (err e, s)
    | panic ↦ (panic, s)
  ]

  -- The body of an update that encodes a value and puts it.
  unfoldable pub put_encoded :
      Outcome StoreError Bytes → Bytes → Bytes → bolt.Db → Outcome StoreError bolt.Db
  unfolding put
  put_encoded encoded bucket key db = elim encoded [
    | ok v ↦ put bucket key v db
    | err e ↦ err e
    | panic ↦ panic
  ]

  create_buckets : List Bytes → bolt.Db → Outcome StoreError bolt.Db
  unfolding create_bucket
  create_buckets [] db = ok db
  create_buckets (b ∷ bs) db = elim (create_bucket b db) [
    | ok new ↦ create_buckets bs new
    | err e ↦ err e
    | panic ↦ panic
  ]

  -- The height that `Open` reads: 0 where there is none of eight bytes.
  unfoldable pub stored_height : bolt.Db → ℕ
  stored_height db = elim (bolt.get (codes "meta") (codes "height") db) [
    | some v ↦ if leb 8 (length v) then (if leb (length v) 8 then be_value v else 0) else 0
    | none ↦ 0
  ]

  -- `Open`, from the database that bbolt opens
  unfoldable pub open_store : bolt.Db → Outcome StoreError (Store bolt)
  unfolding update create_buckets stored_height
  open_store db =
      let made =
        update
          (create_buckets (codes "accounts" ∷ codes "blocks" ∷ codes "meta" ∷ codes "node" ∷ []))
          (record { db = db; height = 0 }) in
      elim made.0 [
        | ok _ ↦ ok (record made.1 { height = stored_height made.1.db })
        | err e ↦ err e
        | panic ↦ panic
      ]

  -- A value that is read and decoded: `none` where there is none.
  unfoldable pub get_decoded :
      {A : Type 0}
      → (Bytes → Outcome StoreError A)
      → Bytes
      → Bytes
      → bolt.Db
      → Outcome StoreError (Option A)
  get_decoded decode bucket key db = elim (bolt.get bucket key db) [
    | none ↦ ok none
    | some bs ↦ elim (decode bs) [ ok v ↦ ok (some v) | err e ↦ err e | panic ↦ panic ]
  ]

module _ (gob : Gob) (bolt : Bolt) where
  -- `SaveAccount`
  unfoldable pub save_account :
      Bytes → Account → Store bolt → Outcome StoreError (Unit {0}) × Store bolt
  unfolding update put_encoded serialize_account
  save_account addr acc =
      update bolt (put_encoded bolt (serialize_account gob acc) (codes "accounts") addr)

  -- `LoadAccount`
  unfoldable pub load_account : Bytes → Store bolt → Outcome StoreError (Option Account)
  unfolding get_decoded deserialize_account
  load_account addr s = get_decoded bolt (deserialize_account gob) (codes "accounts") addr s.db

  -- The loop of `SaveAllAccounts`
  unfoldable pub put_accounts : List (Bytes × Account) → bolt.Db → Outcome StoreError bolt.Db
  unfolding put serialize_account
  put_accounts [] db = ok db
  put_accounts ((addr, acc) ∷ rest) db = elim (serialize_account gob acc) [
    | ok v ↦ elim (put bolt (codes "accounts") addr v db) [
      | ok new ↦ put_accounts rest new
      | err e ↦ err e
      | panic ↦ panic
    ]
    | err e ↦ err (serialize_failed addr)
    | panic ↦ panic
  ]

  -- `SaveAllAccounts`
  unfoldable pub save_all_accounts :
      StateDb → Store bolt → Outcome StoreError (Unit {0}) × Store bolt
  unfolding update put_accounts
  save_all_accounts state = update bolt (put_accounts state.accounts)

  load_pairs :
      List (Bytes × Bytes) → List (Bytes × Account) → Outcome StoreError (List (Bytes × Account))
  unfolding deserialize_account
  load_pairs [] m = ok m
  load_pairs ((k, v) ∷ rest) m = elim (deserialize_account gob v) [
    | ok acc ↦ load_pairs rest (insert k acc m)
    | err e ↦ err e
    | panic ↦ panic
  ]

  -- `LoadAllAccounts`
  unfoldable pub load_all_accounts : Store bolt → Outcome StoreError StateDb
  unfolding load_pairs
  load_all_accounts s = elim (load_pairs (bolt.pairs (codes "accounts") s.db) []) [
    | ok m ↦ ok (record new_state_db { accounts = m })
    | err e ↦ err e
    | panic ↦ panic
  ]
