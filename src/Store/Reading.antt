-- ===== src/Store/Reading.antt =====
-- What comes back of the blocks and of the index that store/store.go wrote.
use waychain_consensus.Prelude.{
  ℕ, ◌^◌, ◌<◌, ◌≡◌, refl, sym, ap, ◌∙◌, ◌&&◌, ◌++◌, Option, none, some, ok, err, panic, Outcome,
  is_ok, if◌then◌else◌, ◌==◌, ltb, Bytes, bytes_eq, bytes_eq_refl, bytes_eq_iff, codes, length,
  length-append, take, drop, be_value, arith,
}
use waychain_consensus.Precompile.{be_bytes}
use waychain_consensus.Precompile.Laws.{length-be_bytes, take-length}
use waychain_consensus.Serialize.Reading.{be_value-be_bytes, take-append, drop-append}
use waychain_consensus.Store.Updating.{look-update}
use waychain_consensus.Store.{
  Store, serialize_gob, deserialize_gob, put, create_bucket, update, put_encoded, get_decoded,
}
use waychain_consensus.Store.Records.{BlockData}
use waychain_consensus.Store.Backend.{StoreError, Gob, Bolt, IsExact, IsBolt}
use waychain_consensus.Store.Blocks.{
  index_value, record_height, put_in_new, put_block, save_block, load_block, save_tx_index,
  load_tx_index,
}

height_keys :
    (a b : ℕ) → a < 2 ^ 64 → b < 2 ^ 64 → bytes_eq (be_bytes 8 a) (be_bytes 8 b) ≡ (a == b)
height_keys a b small small' = ground (
  arith,
  bytes_eq_iff (be_bytes 8 a) (be_bytes 8 b),
  λ (e : be_bytes 8 a ≡ be_bytes 8 b).
      sym (be_value-be_bytes 8 a small) ∙ ap be_value e ∙ be_value-be_bytes 8 b small',
  λ (e : a ≡ b). ap (be_bytes 8) e,
)

abbrev block_in : (gob : Gob) (bolt : Bolt) → ℕ → bolt.Db → Outcome StoreError (Option BlockData)
block_in gob bolt height db =
    get_decoded bolt (deserialize_gob gob.block) (codes "blocks") (be_bytes 8 height) db

abbrev entry_of : Option Bytes → Option (ℕ × ℕ)
entry_of none = none
entry_of (some v) =
    if ltb (length v) 10 then none else some (be_value (take 8 v), be_value (take 2 (drop 8 v)))

module _ (bolt : Bolt) (law : IsBolt bolt) where
  get-put_lem :
      (bucket key v : Bytes) (db new : bolt.Db) (b j : Bytes)
      → put bolt bucket key v db ≡ ok new
      → bolt.get b j new ≡ (if bytes_eq bucket b && bytes_eq key j then some v else bolt.get b j db)
  unfolding put
  get-put_lem bucket key v db new b j h = ground (arith, law.get-put bucket key v db new b j)

  created :
      (bucket v key : Bytes) (db new : bolt.Db) (j : Bytes) (mid : Outcome StoreError bolt.Db)
      → create_bucket bolt bucket db ≡ mid
      → put_in_new bolt bucket (ok v) key db ≡ ok new
      → bolt.get bucket j new ≡ (if bytes_eq key j then some v else bolt.get bucket j db)
  unfolding put_in_new create_bucket put_encoded
  created bucket v key db new j (ok mid) e h = ground (
    arith,
    law.get-create_bucket bucket db mid bucket j,
    get-put_lem bucket key v mid new bucket j,
    bytes_eq_refl bucket,
  )
  created bucket v key db new j (err x) e h = ground (arith, e, h)
  created bucket v key db new j panic e h = ground (arith, e, h)

  get-put_in_new :
      (bucket v key : Bytes) (db new : bolt.Db) (j : Bytes)
      → put_in_new bolt bucket (ok v) key db ≡ ok new
      → bolt.get bucket j new ≡ (if bytes_eq key j then some v else bolt.get bucket j db)
  get-put_in_new bucket v key db new j =
      created bucket v key db new j (create_bucket bolt bucket db) refl

  entry_of_append :
      (xs ys : Bytes)
      → length xs ≡ 8
      → length ys ≡ 2
      → entry_of (some (xs ++ ys)) ≡ some (be_value xs, be_value ys)
  entry_of_append xs ys long short = ground (
    arith,
    length-append xs ys,
    ap (λ n. be_value (take n (xs ++ ys))) long,
    ap (λ n. be_value (take 2 (drop n (xs ++ ys)))) long,
    ap be_value (take-append xs ys),
    ap (λ zs. be_value (take 2 zs)) (drop-append xs ys),
    ap (λ n. be_value (take n ys)) short,
    ap be_value (take-length (length ys) ys refl),
  )

  entry_of-index_value :
      (height index : ℕ)
      → height < 2 ^ 64
      → index < 2 ^ 16
      → entry_of (some (index_value height index)) ≡ some (height, index)
  unfolding index_value
  entry_of-index_value height index small small' =
      rw
        (
          entry_of_append (be_bytes 8 height) (be_bytes 2 index) (length-be_bytes 8 height)
              (length-be_bytes 2 index),
          be_value-be_bytes 8 height small,
          be_value-be_bytes 2 index small',
        )
        refl

  -- For a height below 2^64 and a position below 2^16: after a successful `SaveTxIndex` the hash
  -- gives that height and position, and every other hash gives what it did before. After a failed
  -- one, all give what they did before.
  pub load_tx_index-save_tx_index :
      (tx_hash j : Bytes) (height index : ℕ) (s : Store bolt)
      → height < 2 ^ 64
      → index < 2 ^ 16
      → load_tx_index bolt j (save_tx_index bolt tx_hash height index s).1 ≡ (
          if is_ok (save_tx_index bolt tx_hash height index s).0
          then (if bytes_eq tx_hash j then some (height, index) else load_tx_index bolt j s)
          else load_tx_index bolt j s)
  unfolding save_tx_index load_tx_index
  load_tx_index-save_tx_index tx_hash j height index s small small' =
      look-update bolt (λ db. entry_of (bolt.get (codes "tx_index") j db))
        (if bytes_eq tx_hash j then some (height, index) else load_tx_index bolt j s)
        (put_in_new bolt (codes "tx_index") (ok (index_value height index)) tx_hash) s
        λ new h. ground (
          arith,
          get-put_in_new (codes "tx_index") (index_value height index) tx_hash s.db new j h,
          entry_of-index_value height index small small',
        )

module _ (gob : Gob) (bolt : Bolt) (law : IsBolt bolt) where
  get-record_height_case :
      (height : ℕ) (db : bolt.Db) (key : Bytes) (o : Option bolt.Db)
      → bolt.put (codes "meta") (codes "height") (be_bytes 8 height) db ≡ o
      → bolt.get (codes "blocks") key (record_height bolt height db)
        ≡ bolt.get (codes "blocks") key db
  unfolding record_height bytes_eq
  get-record_height_case height db key (some new) e = ground (
    arith,
    e,
    law.get-put (codes "meta") (codes "height") (be_bytes 8 height) db new (codes "blocks") key e,
  )
  get-record_height_case height db key none e = ground (arith, e)

  block_in-record_height :
      (n : ℕ) (db : bolt.Db) (height : ℕ)
      → block_in gob bolt height (record_height bolt n db) ≡ block_in gob bolt height db
  unfolding get_decoded
  block_in-record_height n db height =
      rw
        (
          get_decoded,
          get-record_height_case n db (be_bytes 8 height)
              (bolt.put (codes "meta") (codes "height") (be_bytes 8 n) db) refl,
        )
        refl

  block_in-put :
      (bd : BlockData) (v : Bytes) (db mid : bolt.Db) (height : ℕ)
      → gob.block.decode v ≡ some bd
      → bd.height < 2 ^ 64
      → height < 2 ^ 64
      → put bolt (codes "blocks") (be_bytes 8 bd.height) v db ≡ ok mid
      → block_in gob bolt height mid
        ≡ (if bd.height == height then ok (some bd) else block_in gob bolt height db)
  unfolding get_decoded deserialize_gob
  block_in-put bd v db mid height e small small' h = ground (
    arith,
    get-put_lem bolt law (codes "blocks") (be_bytes 8 bd.height) v db mid (codes "blocks")
        (be_bytes 8 height) h,
    height_keys bd.height height small small',
    bytes_eq_refl (codes "blocks"),
  )

  block_in-put_stored :
      (bd : BlockData) (v : Bytes) (db new : bolt.Db) (height : ℕ)
      (stored : Outcome StoreError bolt.Db)
      → gob.block.encode bd ≡ some v
      → gob.block.decode v ≡ some bd
      → bd.height < 2 ^ 64
      → height < 2 ^ 64
      → put bolt (codes "blocks") (be_bytes 8 bd.height) v db ≡ stored
      → put_block gob bolt bd db ≡ ok new
      → block_in gob bolt height new
        ≡ (if bd.height == height then ok (some bd) else block_in gob bolt height db)
  unfolding put_block put_encoded serialize_gob
  block_in-put_stored bd v db new height (ok mid) e d small small' step h = ground (
    arith,
    e,
    step,
    h,
    block_in-record_height bd.height mid height,
    block_in-put bd v db mid height d small small' step,
  )
  block_in-put_stored bd v db new height (err x) e d small small' step h =
      ground (arith, e, step, h)
  block_in-put_stored bd v db new height panic e d small small' step h = ground (arith, e, step, h)

  block_in-put_block :
      (bd : BlockData) (db new : bolt.Db) (height : ℕ) (encoded : Option Bytes)
      → IsExact gob.block bd
      → bd.height < 2 ^ 64
      → height < 2 ^ 64
      → gob.block.encode bd ≡ encoded
      → put_block gob bolt bd db ≡ ok new
      → block_in gob bolt height new
        ≡ (if bd.height == height then ok (some bd) else block_in gob bolt height db)
  unfolding put_block put_encoded serialize_gob
  block_in-put_block bd db new height (some v) exact small small' e h =
      block_in-put_stored bd v db new height (put bolt (codes "blocks") (be_bytes 8 bd.height) v db)
        e (exact v e) small small' refl h
  block_in-put_block bd db new height none exact small small' e h = ground (arith, e, h)

  after_save :
      (bd : BlockData) (s : Store bolt) (height : ℕ)
      → load_block gob bolt height (save_block gob bolt bd s).1
        ≡ block_in gob bolt height (update bolt (put_block gob bolt bd) s).1.db
  unfolding save_block load_block
  after_save bd s height = ground arith

  -- For heights below 2^64 and a codec that decodes what it encodes of the block: after a
  -- successful `SaveBlock` the block is loaded under its height, and every other height loads what
  -- it did before. After a failed one, all load what they did before.
  pub load_block-save_block :
      (bd : BlockData) (s : Store bolt) (height : ℕ)
      → IsExact gob.block bd
      → bd.height < 2 ^ 64
      → height < 2 ^ 64
      → load_block gob bolt height (save_block gob bolt bd s).1 ≡ (
          if is_ok (save_block gob bolt bd s).0
          then (if bd.height == height then ok (some bd) else load_block gob bolt height s)
          else load_block gob bolt height s)
  unfolding save_block load_block
  load_block-save_block bd s height exact small small' = ground (
    arith,
    after_save bd s height,
    look-update bolt (block_in gob bolt height)
        (if bd.height == height then ok (some bd) else block_in gob bolt height s.db)
        (put_block gob bolt bd) s
        (λ new.
          block_in-put_block bd s.db new height (gob.block.encode bd) exact small small' refl),
  )
