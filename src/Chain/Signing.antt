-- ===== src/Chain/Signing.antt =====
-- The signatures of what a block executes.
use waychain_consensus.Prelude.{
  ℕ, zero, suc, ◌≤◌, ◌≡◌, true, List, [], ◌∷◌, arith, Outcome, ok, err, panic, length, drop, take,
  Option, none, some, Bool-cases, inl, inr,
}
use waychain_consensus.Hashing.{Sha256}
use waychain_consensus.Types.{Transaction}
use waychain_consensus.State.{StateDb, Account, account_at, touch}
use waychain_consensus.Precompile.{pure, ◌>>=◌, ◌>>◌}
use waychain_consensus.Scheduler.{execute_in_order}
use waychain_consensus.TxPool.{TxPool, pop_consensus}
use waychain_consensus.Execution.{execute}
use waychain_consensus.Execution.Results.{ExecutionError, ExecutionResult, Never}
use waychain_consensus.Chain.Transactions.{Node, is_signed, admissible, tx_hash}
use waychain_consensus.Chain.{
  call_of, included, conclude, run_transaction, execute_transaction, execute_all, run_block,
  run_due_tasks, log_tasks,
}

length-take : {A : Type 0} (n : ℕ) (xs : List A) → length (take n xs) ≤ n
length-take zero xs = omega arith
length-take (suc n) [] = omega arith
length-take (suc n) (x ∷ xs) = omega (arith, length-take n xs)

pub length-pop_consensus : (n : ℕ) (p : TxPool) → length (pop_consensus n p).0 ≤ n
unfolding pop_consensus
length-pop_consensus n p =
    ground (arith, length-take n p.consensus, length-take (length p.consensus) p.consensus)

module _ ⦃h : Sha256⦄ (node : Node) where
  -- No transaction carries a signature that its sender's key does not verify.
  unfoldable pub AllSigned : List Transaction → Type 0
  AllSigned [] = Unit
  AllSigned (tx ∷ txs) = (is_signed node tx ≡ true) × AllSigned txs

  -- What the execution of one transaction may hand on, and that of several.
  unfoldable pub IsSignedOutcome : Outcome Never (Option Transaction) → Type 0
  IsSignedOutcome (ok none) = Unit
  IsSignedOutcome (ok (some tx)) = is_signed node tx ≡ true
  IsSignedOutcome (err e) = Unit
  IsSignedOutcome panic = Unit

  unfoldable pub AreSignedOutcome : ℕ → Outcome Never (List Transaction) → Type 0
  unfolding AllSigned
  AreSignedOutcome count (ok txs) = AllSigned txs × (length txs ≤ count)
  AreSignedOutcome count (err e) = Unit
  AreSignedOutcome count panic = Unit

  included-signed :
      (tx : Transaction) (e : Option ExecutionError)
      → is_signed node tx ≡ true
      → IsSignedOutcome (ok (included tx e))
  unfolding IsSignedOutcome included
  included-signed tx none signed = signed
  included-signed tx (some e) signed = tt

  conclude-signed :
      (tx : Transaction) (n : ℕ) (r : Outcome Never ExecutionResult × StateDb)
      → is_signed node tx ≡ true
      → IsSignedOutcome (conclude tx n r).0
  unfolding IsSignedOutcome conclude is_signed tx_hash
  conclude-signed tx n (ok result, s) signed =
      included-signed (record tx { gas_used = result.gas_used; logs = drop n s.logs }) result.error
        signed
  conclude-signed tx n (err e, s) signed = elim e [ ]
  conclude-signed tx n (panic, s) signed = tt

  signed_of_admissible :
      (tx : Transaction) (acc : Account) → admissible node tx acc ≡ true → is_signed node tx ≡ true
  unfolding admissible
  signed_of_admissible tx acc passes = ground arith

  execute_transaction-signed :
      (height : ℕ) (tx : Transaction) (s : StateDb)
      → IsSignedOutcome (execute_transaction node height tx s).0
  unfolding execute_transaction IsSignedOutcome
  execute_transaction-signed height tx s =
      elim (Bool-cases (admissible node tx (account_at tx.from (touch tx.from s)))) [
        | inl passes ↦ rw passes (
            run_transaction-signed height tx (touch tx.from s)
              (signed_of_admissible tx (account_at tx.from (touch tx.from s)) passes))
        | inr fails ↦ rw fails tt
      ]
    where
      run_transaction-signed :
          (height : ℕ) (tx : Transaction) (s : StateDb)
          → is_signed node tx ≡ true
          → IsSignedOutcome (run_transaction node height tx s).0
      run_transaction-signed height tx s signed =
          conclude-signed tx (length s.logs)
            (execute node.precompiles node.revm height (call_of tx) s) signed

  prepended-signed :
      (count : ℕ) (first : Option Transaction) (txs : List Transaction)
      → IsSignedOutcome (ok first)
      → AllSigned txs × (length txs ≤ count)
      → AreSignedOutcome (suc count) (ok (elim first [ none ↦ txs | some done ↦ done ∷ txs ]))
  unfolding IsSignedOutcome AreSignedOutcome AllSigned
  prepended-signed count none txs one (all, few) = (all, omega arith)
  prepended-signed count (some tx) txs one (all, few) = ((one, all), omega arith)

  -- The rest of the loop, given what it returned, and the loop, given what its first round returned.
  rest-signed :
      (count : ℕ) (first : Option Transaction) (r : Outcome Never (List Transaction) × StateDb)
      (s : StateDb)
      → IsSignedOutcome (ok first)
      → AreSignedOutcome count r.0
      → AreSignedOutcome
          (suc count)
          (((λ (u : StateDb). r) >>= λ rest.
              pure (elim first [ none ↦ rest | some done ↦ done ∷ rest ]))
            s).0
  unfolding AreSignedOutcome
  rest-signed count first (ok txs, t) s one all = prepended-signed count first txs one all
  rest-signed count first (err e, t) s one all = tt
  rest-signed count first (panic, t) s one all = tt

  loop-signed :
      (height : ℕ) (txs : List Transaction) (r : Outcome Never (Option Transaction) × StateDb)
      (s : StateDb)
      → IsSignedOutcome r.0
      → ((t : StateDb) → AreSignedOutcome (length txs) (execute_all node height txs t).0)
      → AreSignedOutcome
          (suc (length txs))
          (((λ (u : StateDb). r) >>= λ first.
              (execute_all node height txs >>= λ rest.
              pure (elim first [ none ↦ rest | some done ↦ done ∷ rest ])))
            s).0
  unfolding AreSignedOutcome
  loop-signed height txs (ok first, t) s one all =
      rest-signed (length txs) first (execute_all node height txs t) t one (all t)
  loop-signed height txs (err e, t) s one all = tt
  loop-signed height txs (panic, t) s one all = tt

  execute_all-signed :
      (height : ℕ) (txs : List Transaction) (s : StateDb)
      → AreSignedOutcome (length txs) (execute_all node height txs s).0
  unfolding execute_all AreSignedOutcome AllSigned
  execute_all-signed height [] s = (tt, omega arith)
  execute_all-signed height (tx ∷ txs) s =
      loop-signed height txs (execute_transaction node height tx s) s
        (execute_transaction-signed height tx s) (execute_all-signed height txs)

  tasks-signed :
      (height count : ℕ) (r : Outcome Never (List Transaction) × StateDb) (s : StateDb)
      → AreSignedOutcome count r.0
      → AreSignedOutcome count
          (((λ (u : StateDb). r) >>= λ executed. (run_due_tasks height >> pure executed)) s).0
  unfolding AreSignedOutcome run_due_tasks execute_in_order log_tasks
  tasks-signed height count (ok txs, t) s all = all
  tasks-signed height count (err e, t) s all = tt
  tasks-signed height count (panic, t) s all = tt

  pub run_block-signed :
      (height : ℕ) (txs : List Transaction) (s : StateDb)
      → AreSignedOutcome (length txs) (run_block node height txs s).0
  unfolding run_block
  run_block-signed height txs s =
      tasks-signed height (length txs) (execute_all node height txs s) s
        (execute_all-signed height txs s)
