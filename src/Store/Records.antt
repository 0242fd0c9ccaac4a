-- ===== src/Store/Records.antt =====
-- The records that store/store.go writes to disk.
use waychain_consensus.Prelude.{ℕ, Bytes, List}

pub record SerializedAccount : Type 0 where
  pub nonce : ℕ
  pub balance : Bytes
  pub code_hash : Bytes
  pub code : Bytes
  pub storage_keys : List Bytes
  pub storage_vals : List ℕ
  pub contract_class : ℕ
  pub dox_dev_level : ℕ
  pub state_rent_paid : Bytes
  pub last_rent_payment : ℕ

pub record BlockData : Type 0 where
  pub height : ℕ
  pub proposer : Bytes
  pub tx_count : ℕ
  pub hash : Bytes
  pub prev_hash : Bytes
  pub state_ref : Bytes

pub record NodeInfo : Type 0 where
  pub id : Bytes
  pub listen_addr : Bytes
  pub rpc_addr : Bytes
  pub node_key : Bytes

pub record TxData : Type 0 where
  pub nonce : ℕ
  pub from : Bytes
  pub to : Bytes
  pub value : Bytes
  pub gas_limit : ℕ
  pub gas_price : ℕ
  pub gas_used : ℕ
  pub calldata : Bytes
  pub hash : Bytes
  pub signature : Bytes
