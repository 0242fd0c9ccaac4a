-- ===== src/Chain/Tests.antt =====
-- Runs of the chain, and its theorems at concrete inputs.
use waychain_consensus.Prelude.{
  ◌+◌, ◌*◌, ◌%◌, ◌^◌, ◌≡◌, refl, true, false, [], ◌∷◌, none, some, ok, err, if◌then◌else◌, Bytes,
  bytes_eq, codes, lookup_or, lookup, insert,
}
use waychain_consensus.Prelude.Int.{pos, ◌+ℤ◌, ◌-ℤ◌}
use waychain_consensus.Prelude.Hex.{decode_string, trim_0x, to_lower, from_hex_char}
use waychain_consensus.Hashing.{plain_digest}
use waychain_consensus.Types.{Transaction}
use waychain_consensus.State.{
  StateDb, new_account, new_state_db, account_at, put_account, can_deploy_contract,
}
use waychain_consensus.TxPool.{new_tx_pool}
use waychain_consensus.Econo.{new_econo}
use waychain_consensus.Execution.{precompile_of}
use waychain_consensus.Execution.Results.{precompile_error}
use waychain_consensus.Staking.Hundredths.{hundredths}
use waychain_consensus.Chain.Transactions.{
  Node, new_transaction, admissible, is_signed, gas_price_of,
}
use waychain_consensus.Chain.{Chain, zero_hash, execute_transaction}
use waychain_consensus.Chain.Linking.{IsLinked, submit, produce, run, run-IsLinked}
use waychain_consensus.Chain.Transfers.{
  IsTransfer, balance_of, nonce_of, transfer_exact, transfer_once,
}

-- A node whose precompiles refuse everything and whose library never answers.
abbrev node : Node
node = record {
  precompiles = record {
    fn = λ addr input caller block s. (err precompile_error, s);
    gas = λ addr. 0;
  };
  revm = record { revm_execute = λ request. none };
  verify = λ key digest signature. true;
  accounts_text = λ s. [];
}

abbrev rich : StateDb
rich = put_account (codes "zoe") (record new_account { balance = pos 100000 }) new_state_db

abbrev gift : Transaction
gift = new_transaction 0 (codes "zoe") (codes "tom") 500 30000 []

abbrev start : Chain node hundredths
start = record {
  state = rich;
  pool = new_tx_pool;
  blocks = [];
  height = 0;
  staking = none;
  inflation_pct = 700;
  econo = new_econo;
}

run-IsLinked_example :
    IsLinked node zero_hash 0
      (run node hundredths (submit gift ∷ produce (pos 7) 1 ∷ produce (pos 9) 1 ∷ []) start).blocks
run-IsLinked_example =
    run-IsLinked node hundredths (submit gift ∷ produce (pos 7) 1 ∷ produce (pos 9) 1 ∷ []) start
      refl refl

transfer_exact_example :
    let accepted = admissible node gift (account_at (codes "zoe") rich) in
    let r = execute_transaction node 1 gift rich in
    (r.0 ≡ ok (if accepted then some (record gift { gas_used = 21000; logs = [] }) else none))
    × (balance_of (codes "zoe") r.1 ≡ (
        if accepted
        then balance_of (codes "zoe") rich -ℤ pos (21000 * gas_price_of gift % 2 ^ 64 + 500)
        else balance_of (codes "zoe") rich))
    × (balance_of (codes "tom") r.1 ≡ (
        if accepted
        then balance_of (codes "tom") rich +ℤ pos 500
        else balance_of (codes "tom") rich))
    × (nonce_of (codes "zoe") r.1 ≡ (
        if accepted
        then (nonce_of (codes "zoe") rich + 1) % 2 ^ 64
        else nonce_of (codes "zoe") rich))
    × ((a : Bytes)
        → bytes_eq (codes "zoe") a ≡ false
        → bytes_eq (codes "tom") a ≡ false
        → account_at a r.1 ≡ account_at a rich)
unfolding IsTransfer new_transaction bytes_eq precompile_of decode_string trim_0x to_lower
    from_hex_char account_at put_account lookup_or insert lookup
transfer_exact_example = transfer_exact node 1 gift rich (refl, refl, refl, refl) refl

-- The gift is accepted.
gift_test : admissible node gift (account_at (codes "zoe") rich) ≡ true
unfolding admissible is_signed new_transaction account_at put_account lookup_or insert lookup
    bytes_eq can_deploy_contract
gift_test = refl

transfer_once_example :
    (execute_transaction node 2 gift (execute_transaction node 1 gift rich).1).0 ≡ ok none
unfolding IsTransfer new_transaction bytes_eq precompile_of decode_string trim_0x to_lower
    from_hex_char account_at put_account lookup_or insert lookup admissible is_signed
    can_deploy_contract
transfer_once_example = transfer_once node 1 2 gift rich (refl, refl, refl, refl) refl refl
