-- ===== src/Execution.antt =====
-- evm/interpreter.go: one call of the execution layer, `Execute`: to a precompile, a plain transfer, or
-- code, which Execution/Bridge hands to the revm library (evm/revm_bridge.go).
-- The functions of the precompiles are behind the interface `Precompiles`. The state that an EVM holds
-- is passed along; nothing reads its timestamp, lane, chain and gas limit, nor `ReadOnly`, nor the
-- stack and the memory that the file declares.
pub mod Results
pub mod Bridge
use waychain_consensus.Prelude.{
  ℕ, ◌+◌, Bool, true, false, ◌&&◌, List, [], ◌∷◌, Option, none, some, ok, err, panic, ltb, leb,
  ◌==◌, if◌then◌else◌, Bytes, bytes_eq, codes, length, Outcome, take, ◌++◌, ◌%◌, ◌^◌,
}
use waychain_consensus.Prelude.Int.{pos, ◌+ℤ◌}
use waychain_consensus.Prelude.Hex.{decode_string, trim_0x, to_lower, hex}
use waychain_consensus.Prelude.Decimal.{decimal}
use waychain_consensus.Hashing.{Sha256}
use waychain_consensus.State.{
  StateDb, Account, DeployError, account_at, put_account, touch, create_account,
  enforce_contract_class,
}
use waychain_consensus.Precompile.{Call, pure, ◌>>=◌, ◌>>◌, open_account}
use waychain_consensus.Execution.Results.{
  ExecutionError, precompile_error, ExecutionResult, CallContext, Never, Precompiles, Revm,
}
use waychain_consensus.Execution.Bridge.{execute_with_revm}

-- `IsPrecompile`
abbrev pub is_precompile : ℕ → Bool
is_precompile addr = leb 12 addr && leb addr 39

-- The last byte of a decoded address whose other bytes are zero.
unfoldable pub precompile_byte : Bytes → Option ℕ
precompile_byte [] = none
precompile_byte (b ∷ []) = if is_precompile b then some b else none
precompile_byte (b ∷ (c ∷ cs)) =
    let rest = precompile_byte (c ∷ cs) in if b == 0 then rest else none

-- The precompile that an address names, in any of its hexadecimal forms.
unfoldable pub precompile_of : Bytes → Option ℕ
unfolding decode_string trim_0x to_lower precompile_byte
precompile_of address =
    let decoded = decode_string (trim_0x (to_lower address)) in
    if decoded.1 then precompile_byte decoded.0 else none

abbrev plain_result : ℕ → ExecutionResult
plain_result gas = record { return_data = []; gas_used = gas; logs = []; error = none }

-- `ExecutePrecompile` and what `Execute` makes of it: a failure costs no gas.
unfoldable pub precompile_result :
    Precompiles → ℕ → Outcome ExecutionError Bytes → Outcome Never ExecutionResult
precompile_result pc addr (ok bytes) =
    ok (record { return_data = bytes; gas_used = pc.gas addr; logs = []; error = none })
precompile_result pc addr (err e) =
    ok (record { return_data = []; gas_used = 0; logs = []; error = some e })
precompile_result pc addr panic = panic

unfoldable pub run_precompile : Precompiles → ℕ → ℕ → CallContext → Call Never ExecutionResult
unfolding precompile_result
run_precompile pc addr block ctx s =
    let r = pc.fn addr ctx.calldata ctx.caller block s in (precompile_result pc addr r.0, r.1)

-- The transfer to an account without code: the recipient's part of it.
unfoldable pub credit : Bytes → ℕ → StateDb → StateDb
credit address value s =
    let to = account_at address s in
    put_account address (record to { balance = to.balance +ℤ pos value }) s

unfoldable pub transfer : CallContext → Call Never ExecutionResult
unfolding credit
transfer ctx s =
    if bytes_eq ctx.caller ctx.address
    then (ok (plain_result 21000), s)
    else if ltb 0 ctx.value
    then (ok (plain_result 21000), credit ctx.address ctx.value s)
    else (ok (plain_result 21000), s)

module _ ⦃h : Sha256⦄ where
  unfoldable pub call_revm : Revm → CallContext → Bytes → Call Never ExecutionResult
  unfolding execute_with_revm
  call_revm revm ctx code s = let r = execute_with_revm revm ctx code s in (ok r.0, r.1)

  -- `Execute`, for an address that is neither empty nor a precompile's
  unfoldable pub call_account : Revm → CallContext → Call Never ExecutionResult
  unfolding call_revm transfer
  call_account revm ctx s =
      let opened = touch ctx.address s in
      let code = (account_at ctx.address opened).code in
      if (length code == 0) && (length ctx.calldata == 0)
      then transfer ctx opened
      else if ltb 0 (length code)
      then call_revm revm ctx code opened
      else call_revm revm ctx ctx.calldata opened

  -- `Execute`. With an empty address `precompile_of` is none.
  unfoldable pub execute : Precompiles → Revm → ℕ → CallContext → Call Never ExecutionResult
  unfolding precompile_of run_precompile call_revm call_account
  execute pc revm block ctx s = elim (precompile_of ctx.address) [
    | some addr ↦ run_precompile pc addr block ctx s
    | none ↦
        if bytes_eq ctx.address []
        then call_revm revm ctx ctx.calldata s
        else call_account revm ctx s
  ]

  -- `DeployContractFromCode`; the counter of a nonce stays below 2^64
  unfoldable pub deploy_contract_from_code : Bytes → Bytes → ℕ → Call DeployError Bytes
  unfolding enforce_contract_class create_account hex
  deploy_contract_from_code caller code class s =
      let s1 = touch caller s in
      let account = account_at caller s1 in
      let seed = codes "template:" ++ (caller ++ codes ":" ++ decimal account.nonce) in
      let addr = hex (take 20 (h.sum256 seed)) in
      let s2 = put_account caller (record account { nonce = (account.nonce + 1) % 2 ^ 64 }) s1 in
      let s3 = create_account addr code s2 in
      let contract = account_at addr s3 in
      elim (enforce_contract_class account.dox_dev_level class) [
        | err e ↦ (err e, s1)
        | panic ↦ (panic, s1)
        | ok done ↦ (
          ok addr,
          put_account addr
              (record contract { dox_dev_level = account.dox_dev_level; contract_class = class })
              s3,
        )
      ]
