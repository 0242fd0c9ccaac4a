-- ===== src/Store/Tests.antt =====
-- A database in memory, with what is written to it read back.
use waychain_consensus.Prelude.{
  ◌≡◌, refl, sym, ap, true, ◌&&◌, [], ◌∷◌, Option, none, some, ok, is_ok, if◌then◌else◌, ◌==◌,
  Bytes, bytes_eq, bytes_key, codes, arith, lookup, contains_key,
}
use waychain_consensus.Prelude.Int.{negsuc}
use waychain_consensus.State.{Account, StateDb, new_account, new_state_db}
use waychain_consensus.Store.{
  Store, to_serialized, serialize_account, deserialize_account, load_account, save_all_accounts,
}
use waychain_consensus.Store.Records.{BlockData}
use waychain_consensus.Store.Backend.{Codec, Gob, Bolt, IsBolt}
use waychain_consensus.Store.Buffer.{BytesBuffer, buffer_read}
use waychain_consensus.Store.Blocks.{save_block, load_block, save_tx_index, load_tx_index}
use waychain_consensus.Store.Accounts.{
  unsigned, IsKeyed, AllSavable, deserialize_account-serialize_account,
  load_account-save_all_accounts,
}
use waychain_consensus.Store.Reading.{load_tx_index-save_tx_index, load_block-save_block}

abbrev MemoryDb : Type 0
MemoryDb = Bytes → Bytes → Option Bytes

-- It takes every write and lists no pairs.
abbrev memory : Bolt
memory = record {
  Db = MemoryDb;
  get = λ b k db. db b k;
  put = λ b k v db. some (λ b' k'. if bytes_eq b b' && bytes_eq k k' then some v else db b' k');
  create_bucket = λ b db. some db;
  pairs = λ b db. [];
  commits = λ db. true;
}

abbrev found_in : Bytes → Bytes → Option MemoryDb → Option Bytes
found_in b k none = none
found_in b k (some db) = db b k

memory-IsBolt : IsBolt memory
memory-IsBolt = record {
  get-put = λ bucket key v db new b k h. ap (found_in b k) (sym h);
  get-create_bucket = λ bucket db new b k h. ap (found_in b k) (sym h);
}

abbrev empty_store : Store memory
empty_store = record { db = λ b k. none; height = 0 }

-- A codec that knows one value.
abbrev single : {A : Type 0} → A → Codec A
single v = record { encode = λ _. some (1 ∷ []); decode = λ _. some v }

abbrev in_debt : Account
in_debt = record new_account { nonce = 4; balance = negsuc 299; storage = (codes "k", 7) ∷ [] }

abbrev genesis_block : BlockData
genesis_block = record {
  height = 3;
  proposer = codes "zoe";
  tx_count = 0;
  hash = [];
  prev_hash = [];
  state_ref = [];
}

abbrev gob : Gob
gob = record {
  account = single (to_serialized in_debt);
  block = single genesis_block;
  info = single (record { id = []; listen_addr = []; rpc_addr = []; node_key = [] });
  txs = single [];
}

deserialize_account-serialize_account_example :
    deserialize_account gob (1 ∷ []) ≡ ok (unsigned in_debt)
unfolding IsKeyed contains_key serialize_account
deserialize_account-serialize_account_example =
    deserialize_account-serialize_account gob in_debt (1 ∷ []) (λ bs h. refl) (refl, tt) refl

abbrev indebted : StateDb
indebted = record new_state_db { accounts = (codes "zoe", in_debt) ∷ [] }

load_account-save_all_accounts_example :
    load_account gob memory (codes "zoe") (save_all_accounts gob memory indebted empty_store).1 ≡ (
      if is_ok (save_all_accounts gob memory indebted empty_store).0
      then elim (lookup (codes "zoe") indebted.accounts) [
        | some acc ↦ ok (some (unsigned acc))
        | none ↦ load_account gob memory (codes "zoe") empty_store
      ]
      else load_account gob memory (codes "zoe") empty_store)
unfolding AllSavable IsKeyed contains_key
load_account-save_all_accounts_example =
    load_account-save_all_accounts gob memory memory-IsBolt indebted empty_store (codes "zoe")
      ((λ bs h. refl), (refl, tt), tt) (refl, tt)

load_tx_index-save_tx_index_example :
    load_tx_index memory (codes "h") (save_tx_index memory (codes "h") 70000 9 empty_store).1 ≡ (
      if is_ok (save_tx_index memory (codes "h") 70000 9 empty_store).0
      then (if bytes_eq (codes "h") (codes "h")
          then some (70000, 9)
          else load_tx_index memory (codes "h") empty_store)
      else load_tx_index memory (codes "h") empty_store)
load_tx_index-save_tx_index_example =
    load_tx_index-save_tx_index memory memory-IsBolt (codes "h") (codes "h") 70000 9 empty_store
      (omega arith) (omega arith)

load_block-save_block_example :
    load_block gob memory 3 (save_block gob memory genesis_block empty_store).1 ≡ (
      if is_ok (save_block gob memory genesis_block empty_store).0
      then (if 3 == 3 then ok (some genesis_block) else load_block gob memory 3 empty_store)
      else load_block gob memory 3 empty_store)
load_block-save_block_example =
    load_block-save_block gob memory memory-IsBolt genesis_block empty_store 3 (λ bs h. refl)
      (omega arith) (omega arith)

-- What is written is read, in pieces, and then the end is an error.
abbrev two_pieces : BytesBuffer
two_pieces = record { payload = 1 ∷ 2 ∷ 3 ∷ []; off = 2 }

buffer_read-two_pieces : (buffer_read 2 two_pieces).0 ≡ some (3 ∷ [])
unfolding buffer_read
buffer_read-two_pieces = refl
