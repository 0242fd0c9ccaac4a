-- ===== src/Chain/Transfers.antt =====
-- The transfer of an amount to an account without code.
use waychain_consensus.Prelude.{
  ℕ, ◌+◌, ◌*◌, ◌%◌, ◌^◌, ◌≡◌, refl, ap, ◌∙◌, true, false, List, [], ◌∷◌, arith, ltb, ok, Bytes,
  bytes_eq, bytes_eq_refl, length, drop, if◌then◌else◌, ◌==◌, none, some, bytes_eq_iff,
}
use waychain_consensus.Prelude.Int.{ℤ, pos, ◌+ℤ◌, ◌-ℤ◌}
use waychain_consensus.Hashing.{Sha256}
use waychain_consensus.Types.{Transaction}
use waychain_consensus.State.{StateDb, Account, account_at, put_account, touch}
use waychain_consensus.State.Storage.{account_at-put_account, account_at-touch, logs-touch}
use waychain_consensus.Execution.{precompile_of, execute, call_account, transfer, credit}
use waychain_consensus.Chain.Transactions.{Node, admissible, gas_price_of}
use waychain_consensus.Chain.{call_of, charge, conclude, run_transaction, execute_transaction}

unfoldable pub balance_of : Bytes → StateDb → ℤ
balance_of a s = (account_at a s).balance

unfoldable pub nonce_of : Bytes → StateDb → ℕ
nonce_of a s = (account_at a s).nonce

-- The address is no precompile's and not empty, nothing is called, and there is no code.
unfoldable pub IsTransfer : Transaction → StateDb → Type 0
IsTransfer tx s =
    (precompile_of tx.to ≡ none)
    × (bytes_eq tx.to [] ≡ false)
    × (tx.calldata ≡ [])
    × ((account_at tx.to s).code ≡ [])

account_at-credit :
    (a b : Bytes) (v : ℕ) (s : StateDb)
    → account_at a (credit b v s) ≡ (
        if bytes_eq b a
        then record (account_at b s) { balance = (account_at b s).balance +ℤ pos v }
        else account_at a s)
unfolding credit
account_at-credit a b v s =
    account_at-put_account a b
      (record (account_at b s) { balance = (account_at b s).balance +ℤ pos v }) s

account_at-charge :
    (a : Bytes) (tx : Transaction) (gas : ℕ) (s : StateDb)
    → account_at a (charge tx gas s) ≡ (
        if bytes_eq tx.from a
        then record (account_at tx.from s) {
          balance =
              (account_at tx.from s).balance -ℤ pos (gas * gas_price_of tx % 2 ^ 64 + tx.value);
          nonce = ((account_at tx.from s).nonce + 1) % 2 ^ 64;
        }
        else account_at a s)
unfolding charge
account_at-charge a tx gas s =
    account_at-put_account a tx.from
      (record (account_at tx.from s) {
        balance = (account_at tx.from s).balance -ℤ pos (gas * gas_price_of tx % 2 ^ 64 + tx.value);
        nonce = ((account_at tx.from s).nonce + 1) % 2 ^ 64;
      })
      s

drop_all : {A : Type 0} (xs : List A) → drop (length xs) xs ≡ []
drop_all [] = refl
drop_all (x ∷ xs) = drop_all xs

add_nothing : (b : ℤ) → b +ℤ pos 0 ≡ b
unfolding ◌+ℤ◌
add_nothing b = ground arith

bytes_eq_sym : (a b : Bytes) → bytes_eq a b ≡ false → bytes_eq b a ≡ false
bytes_eq_sym a b differ = ground (arith, bytes_eq_iff b a, bytes_eq_refl a)

-- The state after the transfer, before the charge.
unfoldable pub delivered : Transaction → StateDb → StateDb
delivered tx s =
    let opened = touch tx.to s in
    if bytes_eq tx.from tx.to
    then opened
    else if ltb 0 tx.value
    then credit tx.to tx.value opened
    else opened

module _ ⦃h : Sha256⦄ (node : Node) where
  call_account-transfer :
      (tx : Transaction) (s : StateDb)
      → IsTransfer tx s
      → call_account node.revm (call_of tx) s ≡ (
        ok (record { return_data = []; gas_used = 21000; logs = []; error = none }),
        delivered tx s,
      )
  unfolding call_account transfer IsTransfer delivered
  call_account-transfer tx s (plain, named, quiet, empty) =
      ground (arith, account_at-touch tx.to tx.to s)

  execute-transfer :
      (height : ℕ) (tx : Transaction) (s : StateDb)
      → IsTransfer tx s
      → execute node.precompiles node.revm height (call_of tx) s ≡ (
        ok (record { return_data = []; gas_used = 21000; logs = []; error = none }),
        delivered tx s,
      )
  unfolding execute IsTransfer
  execute-transfer height tx s (plain, named, quiet, empty) =
      rw (plain, named) (call_account-transfer tx s (plain, named, quiet, empty))

  logs-delivered : (tx : Transaction) (s : StateDb) → (delivered tx s).logs ≡ s.logs
  unfolding delivered credit put_account
  logs-delivered tx s = ground (arith, logs-touch tx.to s)

  account_at-delivered :
      (a : Bytes) (tx : Transaction) (s : StateDb)
      → bytes_eq tx.from tx.to ≡ false
      → account_at a (delivered tx s) ≡ (
          if bytes_eq tx.to a
          then record (account_at tx.to s) {
            balance = (account_at tx.to s).balance +ℤ pos tx.value;
          }
          else account_at a s)
  unfolding delivered
  account_at-delivered a tx s apart = ground (
    arith,
    account_at-touch a tx.to s,
    account_at-touch tx.to tx.to s,
    account_at-credit a tx.to tx.value (touch tx.to s),
    add_nothing (account_at tx.to s).balance,
    bytes_eq_iff tx.to a,
  )

  run_transaction-transfer :
      (height : ℕ) (tx : Transaction) (s : StateDb)
      → IsTransfer tx s
      → run_transaction node height tx s
        ≡ (ok (some (record tx { gas_used = 21000; logs = [] })), charge tx 21000 (delivered tx s))
  unfolding run_transaction
  run_transaction-transfer height tx s plain =
      ap (conclude tx (length s.logs)) (execute-transfer height tx s plain)
      ∙ ap
          (λ l. (
            ok (some (record tx { gas_used = 21000; logs = l })),
            charge tx 21000 (delivered tx s),
          ))
          (ap (drop (length s.logs)) (logs-delivered tx s) ∙ drop_all s.logs)

  -- Every account after an accepted transfer.
  account_at-charged :
      (a : Bytes) (tx : Transaction) (s : StateDb)
      → bytes_eq tx.from tx.to ≡ false
      → account_at a (charge tx 21000 (delivered tx (touch tx.from s))) ≡ (
          if bytes_eq tx.from a
          then record (account_at tx.from s) {
            balance =
                (account_at tx.from s).balance -ℤ pos (21000 * gas_price_of tx % 2 ^ 64 + tx.value);
            nonce = ((account_at tx.from s).nonce + 1) % 2 ^ 64;
          }
          else if bytes_eq tx.to a
          then record (account_at tx.to s) {
            balance = (account_at tx.to s).balance +ℤ pos tx.value;
          }
          else account_at a s)
  account_at-charged a tx s apart = simp (
    account_at-charge,
    account_at-delivered a tx (touch tx.from s) apart,
    account_at-delivered tx.from tx (touch tx.from s) apart,
    bytes_eq_sym tx.from tx.to apart,
    account_at-touch,
  )

  execute_transaction-transfer :
      (height : ℕ) (tx : Transaction) (s : StateDb)
      → IsTransfer tx s
      → execute_transaction node height tx s ≡ (
          if admissible node tx (account_at tx.from s)
          then (
            ok (some (record tx { gas_used = 21000; logs = [] })),
            charge tx 21000 (delivered tx (touch tx.from s)),
          )
          else (ok none, touch tx.from s))
  unfolding execute_transaction IsTransfer
  execute_transaction-transfer height tx s (plain, named, quiet, empty) =
      rw
        (
          account_at-touch tx.from tx.from s,
          run_transaction-transfer height tx (touch tx.from s)
              (plain, named, quiet, rw (account_at-touch tx.to tx.from s) empty),
        )
        refl

  -- For a transaction without calldata to another address that is neither empty nor a precompile's
  -- and holds no code: where the checks pass on the sender's account, it is in the block with 21000
  -- gas, the sender pays the value and the gas at its price modulo 2^64, the recipient gets the
  -- value, and the nonce steps. Else both keep what they had. No other account changes.
  pub transfer_exact :
      (height : ℕ) (tx : Transaction) (s : StateDb)
      → IsTransfer tx s
      → bytes_eq tx.from tx.to ≡ false
      → let accepted = admissible node tx (account_at tx.from s) in
        let r = execute_transaction node height tx s in
        (r.0 ≡ ok (if accepted then some (record tx { gas_used = 21000; logs = [] }) else none))
        × (balance_of tx.from r.1 ≡ (
            if accepted
            then balance_of tx.from s -ℤ pos (21000 * gas_price_of tx % 2 ^ 64 + tx.value)
            else balance_of tx.from s))
        × (balance_of tx.to r.1
            ≡ (if accepted then balance_of tx.to s +ℤ pos tx.value else balance_of tx.to s))
        × (nonce_of tx.from r.1
            ≡ (if accepted then (nonce_of tx.from s + 1) % 2 ^ 64 else nonce_of tx.from s))
        × ((a : Bytes)
            → bytes_eq tx.from a ≡ false
            → bytes_eq tx.to a ≡ false
            → account_at a r.1 ≡ account_at a s)
  unfolding balance_of nonce_of
  transfer_exact height tx s plain apart = (
    ground (arith, execute_transaction-transfer height tx s plain),
    ground (
      arith,
      execute_transaction-transfer height tx s plain,
      account_at-charged tx.from tx s apart,
      account_at-touch tx.from tx.from s,
      bytes_eq_refl tx.from,
    ),
    ground (
      arith,
      execute_transaction-transfer height tx s plain,
      account_at-charged tx.to tx s apart,
      account_at-touch tx.to tx.from s,
      bytes_eq_refl tx.to,
    ),
    ground (
      arith,
      execute_transaction-transfer height tx s plain,
      account_at-charged tx.from tx s apart,
      account_at-touch tx.from tx.from s,
      bytes_eq_refl tx.from,
    ),
    λ a not_from not_to. ground (
      arith,
      execute_transaction-transfer height tx s plain,
      account_at-charged a tx s apart,
      account_at-touch a tx.from s,
    ),
  )

  admissible-nonce :
      (tx : Transaction) (acc : Account) → admissible node tx acc ≡ true → tx.nonce ≡ acc.nonce
  unfolding admissible
  admissible-nonce tx acc passes = ground arith

  execute_transaction-stale :
      (height : ℕ) (tx : Transaction) (s : StateDb)
      → (tx.nonce == nonce_of tx.from s) ≡ false
      → (execute_transaction node height tx s).0 ≡ ok none
  unfolding execute_transaction nonce_of
  execute_transaction-stale height tx s stale =
      ground (arith, account_at-touch tx.from tx.from s, admissible-nonce tx (account_at tx.from s))

  -- For a transaction as in the theorem on transfers, whose checks pass: executed again, at any
  -- height, it is left out.
  pub transfer_once :
      (height later : ℕ) (tx : Transaction) (s : StateDb)
      → IsTransfer tx s
      → bytes_eq tx.from tx.to ≡ false
      → admissible node tx (account_at tx.from s) ≡ true
      → (execute_transaction node later tx (execute_transaction node height tx s).1).0 ≡ ok none
  unfolding nonce_of
  transfer_once height later tx s plain apart passes =
      execute_transaction-stale later tx (execute_transaction node height tx s).1 (
        ground (
          arith,
          admissible-nonce tx (account_at tx.from s) passes,
          (transfer_exact height tx s plain apart).3,
        ))
