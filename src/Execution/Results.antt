-- ===== src/Execution/Results.antt =====
-- The data of a call of the execution layer: `ExecutionResult` and `CallContext` of
-- evm/interpreter.go, and the interfaces to the precompiles and to the revm library.
use waychain_consensus.Prelude.{ℕ, Bool, List, Option, Bytes}
use waychain_consensus.State.{LogEntry}
use waychain_consensus.Precompile.{Call}

-- Why a call fails. The texts of the errors are left out, but for that of revm.
pub data ExecutionError : Type 0 where
  precompile_error : ExecutionError
  revm_no_result : ExecutionError
  revm_error : Bytes → ExecutionError

pub record ExecutionResult : Type 0 where
  pub return_data : Bytes
  pub gas_used : ℕ
  pub logs : List LogEntry
  pub error : Option ExecutionError

pub record CallContext : Type 0 where
  pub caller : Bytes
  pub address : Bytes
  pub value : ℕ
  pub gas_limit : ℕ
  pub calldata : Bytes

-- The steps of a call report their errors in a result: a call as a whole ends in one, or panics.
pub data Never : Type 0 where

-- `PrecompilesTable`: the function and the gas of each entry. An error is one value here.
pub record Precompiles : Type 0 where
  pub fn : ℕ → Bytes → Bytes → ℕ → Call ExecutionError Bytes
  pub gas : ℕ → ℕ

pub record AccountText : Type 0 where
  pub nonce : ℕ
  pub balance : Bytes
  pub code : Bytes
  pub storage : List (Bytes × Bytes)

pub record RevmRequest : Type 0 where
  pub caller : Bytes
  pub address : Bytes
  pub value : Bytes
  pub gas_limit : ℕ
  pub calldata : Bytes
  pub code : Bytes
  pub is_create : Bool
  pub state : List (Bytes × AccountText)

pub record RevmResponse : Type 0 where
  pub success : Bool
  pub return_data : Bytes
  pub gas_used : ℕ
  pub error : Bytes
  pub state : List (Bytes × AccountText)
  pub new_contract : Bytes

-- The library with the JSON around it: `none` where it gives no answer, or none that can be read.
pub record Revm : Type 0 where
  pub revm_execute : RevmRequest → Option RevmResponse
