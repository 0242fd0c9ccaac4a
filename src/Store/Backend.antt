-- ===== src/Store/Backend.antt =====
-- What store/store.go uses of encoding/gob and of go.etcd.io/bbolt.
use waychain_consensus.Prelude.{Bool, ◌&&◌, List, Option, some, ◌≡◌, Bytes, bytes_eq, if◌then◌else◌}
use waychain_consensus.Store.Records.{SerializedAccount, BlockData, NodeInfo, TxData}

pub data StoreError : Type 0 where
  encode_failed : StoreError
  decode_failed : StoreError
  put_failed : StoreError
  commit_failed : StoreError
  serialize_failed : Bytes → StoreError

-- `Encode` and `Decode` at one type.
pub record Codec (A : Type 0) : Type 0 where
  pub encode : A → Option Bytes
  pub decode : Bytes → Option A

pub record Gob : Type 0 where
  pub account : Codec SerializedAccount
  pub block : Codec BlockData
  pub info : Codec NodeInfo
  pub txs : Codec (List TxData)

-- A database with buckets: `Get`, `Put`, `CreateBucketIfNotExists`, the pairs of a bucket in the
-- order of `ForEach` and of the cursor, and whether the disk takes a transaction.
pub record Bolt : Type 1 where
  pub Db : Type 0
  pub get : Bytes → Bytes → Db → Option Bytes
  pub put : Bytes → Bytes → Bytes → Db → Option Db
  pub create_bucket : Bytes → Db → Option Db
  pub pairs : Bytes → Db → List (Bytes × Bytes)
  pub commits : Db → Bool

-- What is encoded of a value is decoded to that value.
abbrev pub IsExact : {A : Type 0} → Codec A → A → Type 0
IsExact codec v = (bs : Bytes) → codec.encode v ≡ some bs → codec.decode bs ≡ some v

pub record IsBolt (bolt : Bolt) : Type 0 where
  pub get-put :
      (bucket key v : Bytes) (db new : bolt.Db) (b k : Bytes)
      → bolt.put bucket key v db ≡ some new
      → bolt.get b k new ≡ (if bytes_eq bucket b && bytes_eq key k then some v else bolt.get b k db)
  pub get-create_bucket :
      (bucket : Bytes) (db new : bolt.Db) (b k : Bytes)
      → bolt.create_bucket bucket db ≡ some new
      → bolt.get b k new ≡ bolt.get b k db
