-- ===== src/Execution/Bridge.antt =====
-- evm/revm_bridge.go: a call of the revm library, with the state that is sent to it and the changes
-- that it reports. A missing map of the answer is an empty one; the order of a list stands for that of
-- Go's `range` over a map.
use waychain_consensus.Prelude.{
  ℕ, zero, suc, ◌-◌, Bool, List, [], ◌∷◌, ◌++◌, Option, none, some, ◌==◌, if◌then◌else◌, Bytes,
  bytes_key, bytes_eq, codes, length, take, replicate, be_value, insert,
}
use waychain_consensus.Prelude.Int.{ℤ, pos, negsuc}
use waychain_consensus.Prelude.Hex.{hex, decode_string, trim_0x, hex_number, number_from}
use waychain_consensus.Hashing.{Sha256}
use waychain_consensus.State.{Account, LogEntry, StateDb, account_at, put_account, touch}
use waychain_consensus.Precompile.{word}
use waychain_consensus.Execution.Results.{
  revm_no_result, revm_error, ExecutionResult, CallContext, AccountText, RevmRequest, RevmResponse,
  Revm,
}

-- `decodeHexBytes`
unfoldable pub decode_hex_bytes : Bytes → Bytes
unfolding trim_0x decode_string
decode_hex_bytes s = (decode_string (trim_0x s)).0

-- The loop of `unpadHex`: zeros in front go, but for the last character.
unfoldable pub strip_zero_digits : Bytes → Bytes
strip_zero_digits [] = []
strip_zero_digits (c ∷ []) = c ∷ []
strip_zero_digits (c ∷ (d ∷ cs)) =
    let rest = strip_zero_digits (d ∷ cs) in if c == 48 then rest else c ∷ (d ∷ cs)

-- `unpadHex`
unfoldable pub unpad_hex : Bytes → Bytes
unfolding trim_0x strip_zero_digits
unpad_hex s = strip_zero_digits (trim_0x s)

-- `pad64hex`
abbrev pub pad64hex : Bytes → Bytes
pad64hex seed = codes "0x" ++ hex seed

-- `parseHexBig`: 0 where the text is no number. `SetString` also takes a sign.
unfoldable pub parse_hex_big : Bytes → ℤ
unfolding trim_0x number_from
parse_hex_big s = signed (trim_0x s)
  where
    or_zero : Option ℕ → ℕ
    or_zero none = 0
    or_zero (some n) = n

    negated : ℕ → ℤ
    negated zero = pos 0
    negated (suc n) = negsuc n

    digits : Bytes → ℕ
    digits [] = 0
    digits (c ∷ cs) = or_zero (number_from 0 (c ∷ cs))

    signed : Bytes → ℤ
    signed [] = pos 0
    signed (c ∷ cs) =
        if c == 45
        then negated (digits cs)
        else if c == 43
        then pos (digits cs)
        else pos (digits (c ∷ cs))

-- `fmt.Sprintf("0x%x", balance)`
abbrev pub balance_text : ℤ → Bytes
balance_text (pos n) = codes "0x" ++ hex_number n
balance_text (negsuc n) = codes "0x-" ++ hex_number (suc n)

-- `copy(key[:], bs)`
abbrev pub to_word : Bytes → Bytes
to_word bs = take 32 bs ++ replicate (32 - length (take 32 bs)) 0

-- The slots that an answer reports for an account.
unfoldable pub apply_slots : List (Bytes × Bytes) → List (Bytes × ℕ) → List (Bytes × ℕ)
unfolding decode_hex_bytes
apply_slots [] slots = slots
apply_slots ((k, v) ∷ rest) slots =
    apply_slots rest
      (insert (to_word (decode_hex_bytes k)) (be_value (to_word (decode_hex_bytes v))) slots)

-- The slots that a request sends.
unfoldable pub slots_text : List (Bytes × ℕ) → List (Bytes × Bytes)
slots_text [] = []
slots_text ((k, v) ∷ rest) = (pad64hex k, pad64hex (word v)) ∷ slots_text rest

module _ ⦃h : Sha256⦄ where
  -- `toEvmAddr`
  unfoldable pub to_evm_addr : Bytes → Bytes
  unfolding trim_0x decode_hex_bytes
  to_evm_addr addr =
      let raw = decode_hex_bytes (trim_0x addr) in
      if length raw == 20
      then codes "0x" ++ trim_0x addr
      else codes "0x" ++ hex (take 20 (h.sum256 raw))

  -- The caller's entry of the snapshot, and that of an existing contract.
  abbrev pub caller_text : Account → AccountText
  caller_text acc = record {
    nonce = acc.nonce;
    balance = balance_text acc.balance;
    code = [];
    storage = [];
  }

  unfoldable pub target_text : Account → AccountText
  unfolding slots_text hex
  target_text acc = record {
    nonce = acc.nonce;
    balance = balance_text acc.balance;
    code = hex acc.code;
    storage = slots_text acc.storage;
  }

  -- The request of `executeWithRevm`; the entry of the address replaces that of the caller where they are the same.
  unfoldable pub revm_request : CallContext → Bytes → StateDb → RevmRequest
  unfolding to_evm_addr target_text hex
  revm_request ctx code s = record {
    caller = to_evm_addr ctx.caller;
    address = to_evm_addr ctx.address;
    value = if ctx.value == 0 then [] else codes "0x" ++ hex_number ctx.value;
    gas_limit = ctx.gas_limit;
    calldata = hex ctx.calldata;
    code = hex code;
    is_create = bytes_eq ctx.address [];
    state =
        let own = insert (to_evm_addr ctx.caller) (caller_text (account_at ctx.caller s)) [] in
        if bytes_eq ctx.address []
        then own
        else insert (to_evm_addr ctx.address) (target_text (account_at ctx.address s)) own;
  }

  -- What one entry of the answer makes of an account.
  unfoldable pub apply_account : Bool → AccountText → Account → Account
  unfolding parse_hex_big decode_hex_bytes apply_slots
  apply_account is_caller out acc = record acc {
    nonce = if is_caller then acc.nonce else out.nonce;
    balance = if length out.balance == 0 then acc.balance else parse_hex_big out.balance;
    code = if length out.code == 0 then acc.code else decode_hex_bytes out.code;
    code_hash =
        if length out.code == 0 then acc.code_hash else h.sum256 (decode_hex_bytes out.code);
    storage = apply_slots out.storage acc.storage;
  }

  -- The loop over the state of the answer.
  unfoldable pub apply_state : Bytes → List (Bytes × AccountText) → StateDb → StateDb
  unfolding unpad_hex apply_account
  apply_state caller [] s = s
  apply_state caller ((text, out) ∷ rest) s =
      let addr = unpad_hex text in
      apply_state caller rest
        (put_account addr (apply_account (bytes_eq addr caller) out (account_at addr s)) s)

  -- The code of a new contract: what the init code returned.
  unfoldable pub store_code : Bytes → Bytes → StateDb → StateDb
  store_code addr code s =
      if length code == 0
      then touch addr s
      else put_account addr (record (account_at addr s) { code = code; code_hash = h.sum256 code })
          s

  unfoldable pub store_contract : Bytes → Bytes → StateDb → StateDb
  unfolding unpad_hex store_code
  store_contract new_contract code s =
      if length new_contract == 0 then s else store_code (unpad_hex new_contract) code s

  abbrev pub deploy_log : Bytes → List LogEntry
  deploy_log new_contract =
      if length new_contract == 0
      then []
      else record {
        address = unpad_hex new_contract;
        topics = [];
        payload = unpad_hex new_contract;
        block = 0;
      }
        ∷ []

  -- `executeWithRevm`, from the answer on
  unfoldable pub accept_response : Bytes → RevmResponse → StateDb → ExecutionResult × StateDb
  unfolding decode_hex_bytes apply_state store_contract
  accept_response caller r s =
      if r.success
      then (
        record {
          return_data = decode_hex_bytes r.return_data;
          gas_used = r.gas_used;
          logs = deploy_log r.new_contract;
          error = none;
        },
        store_contract r.new_contract (decode_hex_bytes r.return_data)
            (apply_state caller r.state s),
      )
      else (
        record {
          return_data = decode_hex_bytes r.return_data;
          gas_used = r.gas_used;
          logs = [];
          error =
              some
                (revm_error (if length r.error == 0 then codes "unknown revm error" else r.error));
        },
        s,
      )

  -- `executeWithRevm`
  unfoldable pub execute_with_revm :
      Revm → CallContext → Bytes → StateDb → ExecutionResult × StateDb
  unfolding revm_request accept_response
  execute_with_revm revm ctx code s =
      let opened =
        if bytes_eq ctx.address []
        then touch ctx.caller s
        else touch ctx.address (touch ctx.caller s) in
      elim (revm.revm_execute (revm_request ctx code opened)) [
        | none ↦ (
          record { return_data = []; gas_used = 0; logs = []; error = some revm_no_result },
          opened,
        )
        | some r ↦ accept_response ctx.caller r opened
      ]
