-- ===== src/Store/Blocks.antt =====
-- The blocks, the transactions, their index and the node's identity in store/store.go.
use waychain_consensus.Prelude.{
  ℕ, zero, suc, List, [], ◌∷◌, ◌++◌, Option, none, some, ok, err, panic, Outcome, if◌then◌else◌,
  ltb, Bytes, codes, length, take, drop, be_value,
}
use waychain_consensus.Precompile.{be_bytes}
use waychain_consensus.Store.{
  Store, serialize_gob, deserialize_gob, create_bucket, update, put_encoded, get_decoded,
}
use waychain_consensus.Store.Records.{BlockData, NodeInfo, TxData}
use waychain_consensus.Store.Backend.{StoreError, Gob, Bolt}

-- The entry of the index: eight bytes of height and two of the place in the block.
unfoldable pub index_value : ℕ → ℕ → Bytes
index_value height index = be_bytes 8 height ++ be_bytes 2 index

module _ (bolt : Bolt) where
  -- `meta.Put` in `SaveBlock`, whose error is dropped.
  unfoldable pub record_height : ℕ → bolt.Db → bolt.Db
  record_height height db = elim (bolt.put (codes "meta") (codes "height") (be_bytes 8 height) db) [
    | some new ↦ new
    | none ↦ db
  ]

  -- A `Put` after the bucket was made sure of.
  unfoldable pub put_in_new :
      Bytes → Outcome StoreError Bytes → Bytes → bolt.Db → Outcome StoreError bolt.Db
  unfolding create_bucket put_encoded
  put_in_new bucket encoded key db = elim (create_bucket bolt bucket db) [
    | ok new ↦ put_encoded bolt encoded bucket key new
    | err e ↦ err e
    | panic ↦ panic
  ]

  -- `SaveTxIndex`
  unfoldable pub save_tx_index :
      Bytes → ℕ → ℕ → Store bolt → Outcome StoreError (Unit {0}) × Store bolt
  unfolding update put_in_new index_value
  save_tx_index tx_hash height index =
      update bolt (put_in_new (codes "tx_index") (ok (index_value height index)) tx_hash)

  -- `LoadTxIndex`: the height and the place, where an entry of ten bytes is found
  unfoldable pub load_tx_index : Bytes → Store bolt → Option (ℕ × ℕ)
  load_tx_index tx_hash s = elim (bolt.get (codes "tx_index") tx_hash s.db) [
    | none ↦ none
    | some v ↦
        if ltb (length v) 10 then none else some (be_value (take 8 v), be_value (take 2 (drop 8 v)))
  ]

module _ (gob : Gob) (bolt : Bolt) where
  -- The body of `SaveBlock`
  unfoldable pub put_block : BlockData → bolt.Db → Outcome StoreError bolt.Db
  unfolding put_encoded serialize_gob record_height
  put_block bd db =
      elim (put_encoded bolt (serialize_gob gob.block bd) (codes "blocks") (be_bytes 8 bd.height)
        db) [ ok new ↦ ok (record_height bolt bd.height new) | err e ↦ err e | panic ↦ panic ]

  -- `SaveBlock`: the height in memory is set inside of the update, before the commit.
  unfoldable pub save_block : BlockData → Store bolt → Outcome StoreError (Unit {0}) × Store bolt
  unfolding put_block update
  save_block bd s =
      let saved = update bolt (put_block bd) s in
      elim (put_block bd s.db) [
        | ok new ↦ (saved.0, record saved.1 { height = bd.height })
        | err e ↦ saved
        | panic ↦ saved
      ]

  -- `LoadBlock`
  unfoldable pub load_block : ℕ → Store bolt → Outcome StoreError (Option BlockData)
  unfolding get_decoded deserialize_gob
  load_block height s =
      get_decoded bolt (deserialize_gob gob.block) (codes "blocks") (be_bytes 8 height) s.db

  -- The loop of `LatestBlocks` over the pairs from the last one on: the blocks in chronological
  -- order, and the error that ends the loop.
  latest_from : ℕ → List (Bytes × Bytes) → List BlockData → List BlockData × Option StoreError
  unfolding deserialize_gob
  latest_from zero pairs acc = (acc, none)
  latest_from (suc n) [] acc = (acc, none)
  latest_from (suc n) ((k, v) ∷ pairs) acc = elim (deserialize_gob gob.block v) [
    | ok bd ↦ latest_from n pairs (bd ∷ acc)
    | err e ↦ (acc, some e)
    | panic ↦ (acc, none)
  ]

  backwards : List (Bytes × Bytes) → List (Bytes × Bytes) → List (Bytes × Bytes)
  backwards [] acc = acc
  backwards (p ∷ ps) acc = backwards ps (p ∷ acc)

  -- `LatestBlocks`
  unfoldable pub latest_blocks : ℕ → Store bolt → List BlockData × Option StoreError
  unfolding latest_from backwards
  latest_blocks n s = latest_from n (backwards (bolt.pairs (codes "blocks") s.db) []) []

  -- `SaveNodeInfo`
  unfoldable pub save_node_info : NodeInfo → Store bolt → Outcome StoreError (Unit {0}) × Store bolt
  unfolding update put_encoded serialize_gob
  save_node_info info =
      update bolt (put_encoded bolt (serialize_gob gob.info info) (codes "node") (codes "info"))

  -- `LoadNodeInfo`
  unfoldable pub load_node_info : Store bolt → Outcome StoreError (Option NodeInfo)
  unfolding get_decoded deserialize_gob
  load_node_info s = get_decoded bolt (deserialize_gob gob.info) (codes "node") (codes "info") s.db

  -- `SaveBlockTxs`
  unfoldable pub save_block_txs :
      ℕ → List TxData → Store bolt → Outcome StoreError (Unit {0}) × Store bolt
  unfolding update put_in_new serialize_gob
  save_block_txs height [] s = (ok tt, s)
  save_block_txs height (tx ∷ txs) s =
      update bolt
        (put_in_new bolt (codes "txs") (serialize_gob gob.txs (tx ∷ txs)) (be_bytes 8 height)) s

  -- `LoadBlockTxs`
  unfoldable pub load_block_txs : ℕ → Store bolt → Outcome StoreError (List TxData)
  unfolding get_decoded deserialize_gob
  load_block_txs height s =
      elim (get_decoded bolt (deserialize_gob gob.txs) (codes "txs") (be_bytes 8 height) s.db) [
        | ok (some txs) ↦ ok txs
        | ok none ↦ ok []
        | err e ↦ err e
        | panic ↦ panic
      ]
