-- ===== src/Types.antt =====
-- The data of a transaction, a block and a vote: `Vote` of types.go, `Transaction` and `BlockWithTx`
-- of chain.go. Hashes ([32]byte) and signatures are byte strings; a transaction's `Value` is the
-- unsigned number that it stands for. The `Logs` slices of both are lists of log entries.
use waychain_consensus.Prelude.{ℕ, List, Bytes}
use waychain_consensus.Prelude.Int.{ℤ}
use waychain_consensus.State.{LogEntry}
use waychain_consensus.Validators.{ValidatorId}

pub record Transaction : Type 0 where
  pub nonce : ℕ
  pub from : Bytes
  pub to : Bytes
  pub value : ℕ
  pub gas_limit : ℕ
  pub gas_price : ℕ
  pub gas_used : ℕ
  pub calldata : Bytes
  pub hash : Bytes
  pub signature : Bytes
  pub lane : ℕ
  pub encrypted_data : Bytes
  pub logs : List LogEntry

pub record Block : Type 0 where
  pub height : ℕ
  pub proposer : ValidatorId
  pub timestamp : ℤ
  pub prev_hash : Bytes
  pub transactions : List Transaction
  pub state_root : Bytes
  pub hash : Bytes
  pub logs : List LogEntry

pub record Vote : Type 0 where
  pub height : ℕ
  pub round : ℕ
  pub block_hash : Bytes
  pub validator : ValidatorId
  pub vote_type : ℕ
