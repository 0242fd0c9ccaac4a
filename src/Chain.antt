-- ===== src/Chain.antt =====
-- chain.go: the chain, which takes transactions from the pool, executes them and appends blocks.
-- `Node` holds what the chain calls and does not implement: the precompiles and the revm library,
-- `ed25519.Verify`, and the text that `fmt` prints for the map of the accounts (of pointers: it shows
-- their addresses in memory). The clock is an argument. The disk store, the callback for subscribers and
-- the printed status are left out, and so is the EVM that only the RPC uses.
pub mod Transactions
pub mod Signing
pub mod Linking
pub mod Transfers
mod Tests
use waychain_consensus.Prelude.{
  ℕ, ◌+◌, ◌*◌, ◌-◌, ◌%◌, ◌^◌, Bool, true, false, ◌&&◌, not, List, [], ◌∷◌, ◌++◌, Option, none, some,
  ok, err, panic, Outcome, ltb, leb, ◌==◌, if◌then◌else◌, Bytes, bytes_eq, codes, length, drop,
  replicate, lookup, bytes_key,
}
use waychain_consensus.Prelude.Int.{ℤ, pos, negsuc, ◌+ℤ◌, ◌-ℤ◌, ltb_ℤ}
use waychain_consensus.Prelude.Decimal.{decimal}
use waychain_consensus.Prelude.Hex.{hex}
use waychain_consensus.Hashing.{Sha256}
use waychain_consensus.Validators.{ValidatorId, id_string}
use waychain_consensus.Types.{Transaction, Block}
use waychain_consensus.State.{StateDb, LogEntry, account_at, put_account, touch}
use waychain_consensus.Precompile.{Call, pure, ◌>>=◌, ◌>>◌, open_account, emit}
use waychain_consensus.TxPool.{TxPool, pop_consensus}
use waychain_consensus.Execution.{credit, execute}
use waychain_consensus.Execution.Results.{ExecutionError, ExecutionResult, CallContext, Never}
use waychain_consensus.Scheduler.{
  TimeExecution, new_time_execution, execute_in_order, execute_due_tasks, scheduler_addr,
}
use waychain_consensus.Econo.{
  Econo, treasury_addr, quest_add_supply, accrue_econo, apply_econo_policy,
}
use waychain_consensus.Staking.{
  Floats, ProgressiveStaking, treasury_share_of, distribute_block_reward, rollover_epoch,
}
use waychain_consensus.Chain.Transactions.{Node, tx_hash, admissible, gas_price_of}

-- `c.Blocks[len(c.Blocks)-1].Hash`, or a given hash where there is no block.
unfoldable pub last_hash : Bytes → List Block → Bytes
last_hash hash [] = hash
last_hash hash (b ∷ bs) = last_hash b.hash bs

abbrev pub zero_hash : Bytes
zero_hash = replicate 32 0

-- `fmt.Sprintf("%d", t)` for a signed number
abbrev signed_decimal : ℤ → Bytes
signed_decimal (pos n) = decimal n
signed_decimal (negsuc n) = codes "-" ++ decimal (n + 1)

-- The rewards of a block, each to the account that the text of the identifier names, and their sum.
unfoldable pub pay_rewards : List (ValidatorId × ℕ) → StateDb → StateDb
unfolding credit
pay_rewards [] s = s
pay_rewards ((id, amount) ∷ rewards) s =
    pay_rewards rewards (if ltb 0 amount then credit (id_string id) amount s else s)

unfoldable pub minted_by : List (ValidatorId × ℕ) → ℕ
minted_by [] = 0
minted_by ((id, amount) ∷ rewards) = (amount + minted_by rewards) % 2 ^ 64

-- The fields of a call that a transaction makes.
abbrev pub call_of : Transaction → CallContext
call_of tx = record {
  caller = tx.from;
  address = tx.to;
  value = tx.value;
  gas_limit = tx.gas_limit;
  calldata = tx.calldata;
}

-- What the sender pays, and the step of its nonce.
unfoldable pub charge : Transaction → ℕ → StateDb → StateDb
charge tx gas_used s =
    let sender = account_at tx.from s in
    put_account tx.from
      (record sender {
        balance = sender.balance -ℤ pos (gas_used * gas_price_of tx % 2 ^ 64 + tx.value);
        nonce = (sender.nonce + 1) % 2 ^ 64;
      })
      s

-- A transaction that failed is not in the block.
unfoldable pub included : Transaction → Option ExecutionError → Option Transaction
included tx none = some tx
included tx (some e) = none

-- The end of the round of a transaction: the charge, and what goes into the block.
unfoldable pub conclude :
    Transaction
    → ℕ
    → Outcome Never ExecutionResult × StateDb
    → Outcome Never (Option Transaction) × StateDb
unfolding charge included
conclude tx logs_before (ok result, s) = (
  ok (
      included (record tx { gas_used = result.gas_used; logs = drop logs_before s.logs })
        result.error),
  charge tx result.gas_used s,
)
conclude tx logs_before (err e, s) = elim e [ ]
conclude tx logs_before (panic, s) = (panic, s)

-- The log of a task that ran.
unfoldable pub log_task : ℕ → TimeExecution → Bytes → Call Never (Unit {0})
log_task height te task_id = elim (lookup task_id te.tasks) [
  | none ↦ pure tt
  | some t ↦ emit scheduler_addr (t.feed_id ∷ task_id ∷ []) ((t.execution_count % 256) ∷ []) height
]

unfoldable pub log_tasks : ℕ → TimeExecution → List Bytes → Call Never (Unit {0})
unfolding log_task
log_tasks height te [] = pure tt
log_tasks height te (id ∷ ids) = do log_task height te id; log_tasks height te ids

-- The time-scheduled tasks of a block: of an engine that is made for the block, without a task.
unfoldable pub run_due_tasks : ℕ → Call Never (Unit {0})
unfolding execute_in_order log_tasks
run_due_tasks height = do
  due ← execute_due_tasks height new_time_execution
  log_tasks height due.1 due.0

module _ ⦃h : Sha256⦄ where
  -- `ComputeHash`
  unfoldable pub compute_hash : Block → Bytes
  unfolding hex
  compute_hash b = h.sum256 (
      decimal b.height
      ++ codes ":"
      ++ id_string b.proposer
      ++ codes ":"
      ++ signed_decimal b.timestamp
      ++ codes ":"
      ++ hex b.prev_hash
      ++ codes ":"
      ++ decimal (length b.transactions)
      ++ codes ":"
      ++ hex b.state_root)

  module _ (node : Node) where
    -- The execution of one transaction, past the checks.
    unfoldable pub run_transaction : ℕ → Transaction → Call Never (Option Transaction)
    unfolding execute conclude
    run_transaction height tx s =
        conclude tx (length s.logs) (execute node.precompiles node.revm height (call_of tx) s)

    -- One round of the loop of `ProduceBlock`: `none` where the transaction is left out.
    unfoldable pub execute_transaction : ℕ → Transaction → Call Never (Option Transaction)
    unfolding run_transaction admissible
    execute_transaction height tx s =
        let opened = touch tx.from s in
        if admissible node tx (account_at tx.from opened)
        then run_transaction height tx opened
        else (ok none, opened)

    unfoldable pub execute_all : ℕ → List Transaction → Call Never (List Transaction)
    unfolding execute_transaction
    execute_all height [] = pure []
    execute_all height (tx ∷ txs) = do
      first ← execute_transaction height tx
      rest ← execute_all height txs
      pure (elim first [ none ↦ rest | some done ↦ done ∷ rest ])

    -- The part of `ProduceBlock` that executes.
    unfoldable pub run_block : ℕ → List Transaction → Call Never (List Transaction)
    unfolding execute_all run_due_tasks
    run_block height txs = do executed ← execute_all height txs; run_due_tasks height; pure executed

    module _ (fl : Floats) where
      pub record Chain : Type 0 where
        pub state : StateDb
        pub pool : TxPool
        pub blocks : List Block
        pub height : ℕ
        pub staking : Option (ProgressiveStaking fl)
        pub inflation_pct : fl.F
        pub econo : Econo

      -- The start of an epoch.
      unfoldable pub roll_econo : Econo → Call Never Econo
      unfolding accrue_econo apply_econo_policy
      roll_econo e = do accrued ← accrue_econo e; apply_econo_policy accrued

      -- The validators' rewards and the treasury's share.
      unfoldable pub pay_block : List (ValidatorId × ℕ) → Call Never (Unit {0})
      unfolding pay_rewards minted_by credit quest_add_supply
      pay_block rewards s =
          let minted = minted_by rewards in
          let share = treasury_share_of minted in
          let paid = pay_rewards rewards s in
          if ltb 0 minted
          then quest_add_supply minted
              (if ltb 0 share then credit treasury_addr share paid else paid)
          else (ok tt, paid)

      -- The end of `ProduceBlock`, with staking.
      unfoldable pub settle_staking :
          fl.F
          → ℕ
          → ProgressiveStaking fl
          → Econo
          → Call Never (Option (ProgressiveStaking fl) × Econo)
      unfolding roll_econo pay_block distribute_block_reward
      settle_staking pct height ps e =
          let starts = ltb 0 ps.epoch_length && (height % ps.epoch_length == 0) in
          let r =
            distribute_block_reward fl pct height (if starts then rollover_epoch fl ps else ps) in
          if starts
          then (do e' ← roll_econo e; pay_block r.0; pure (some r.1, e'))
          else (do pay_block r.0; pure (some r.1, e))

      unfoldable pub settle : Chain → Call Never (Option (ProgressiveStaking fl) × Econo)
      unfolding settle_staking
      settle c = elim c.staking [
        | none ↦ pure (none, c.econo)
        | some ps ↦ settle_staking c.inflation_pct c.height ps c.econo
      ]

      -- The block over what has been executed.
      unfoldable pub assemble :
          ℤ → ValidatorId → ℕ → List Block → List Transaction → StateDb → Block
      unfolding compute_hash last_hash
      assemble now proposer height blocks executed s = record draft { hash = compute_hash draft }
        where
          draft : Block
          draft = record {
            height = height;
            proposer = proposer;
            timestamp = now;
            prev_hash = last_hash zero_hash blocks;
            transactions = executed;
            state_root = h.sum256 (node.accounts_text s);
            hash = [];
            logs = s.logs;
          }

      -- The chain with the new block, before the rewards.
      unfoldable pub append_block : ℤ → ValidatorId → List Transaction → StateDb → Chain → Chain
      unfolding assemble
      append_block now proposer executed s c = record c {
        state = s;
        pool = (pop_consensus 10 c.pool).1;
        height = (c.height + 1) % 2 ^ 64;
        blocks =
            c.blocks ++ assemble now proposer ((c.height + 1) % 2 ^ 64) c.blocks executed s ∷ [];
      }

      -- What the chain is after the rewards; a panic ends the process, with the blocks that it had.
      unfoldable pub settled :
          Chain
          → Outcome Never (Option (ProgressiveStaking fl) × Econo) × StateDb
          → Outcome Never (Unit {0}) × Chain
      settled c r = elim r.0 [
        | ok done ↦ (ok tt, record c { state = r.1; staking = done.0; econo = done.1 })
        | err e ↦ elim e [ ]
        | panic ↦ (panic, c)
      ]

      -- The chain after the execution. When that panics, the process ends, since nothing recovers: the
      -- result holds the chain from before, though the code has then raised `Height` and taken the
      -- transactions from the pool.
      unfoldable pub extended :
          ℤ
          → ValidatorId
          → Chain
          → Outcome Never (List Transaction) × StateDb
          → Outcome Never (Unit {0}) × Chain
      unfolding append_block settle settled
      extended now proposer c r = elim r.0 [
        | ok executed ↦
            let next = append_block now proposer executed r.1 c in
            settled next (settle next next.state)
        | err e ↦ elim e [ ]
        | panic ↦ (panic, c)
      ]

      -- `ProduceBlock`
      unfoldable pub produce_block : ℤ → ValidatorId → Chain → Outcome Never (Unit {0}) × Chain
      unfolding run_block extended
      produce_block now proposer c =
          extended now proposer c
            (run_block ((c.height + 1) % 2 ^ 64) (pop_consensus 10 c.pool).0 c.state)
