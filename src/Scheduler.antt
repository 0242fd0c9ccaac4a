-- ===== src/Scheduler.antt =====
-- evm/oracle_scheduler.go: recurring tasks that run at their blocks (`TimeExecution`), the first part of
-- the file. The tasks are pointers in a map, with the order of their insertion beside it: an
-- association list, and a list of identifiers. The counters are `uint64`s.
pub mod Timing
mod Tests
use waychain_consensus.Prelude.{
  ℕ, ◌+◌, ◌%◌, ◌^◌, Bool, true, false, not, ◌&&◌, List, [], ◌∷◌, ◌++◌, Option, none, some, ltb, leb,
  ◌==◌, if◌then◌else◌, Bytes, bytes_key, bytes_eq, codes, lookup, insert, ok, err, panic, Outcome,
}
use waychain_consensus.Prelude.Int.{pos, ◌+ℤ◌}
use waychain_consensus.Prelude.Decimal.{decimal}
use waychain_consensus.Prelude.Hex.{hex}
use waychain_consensus.Hashing.{Sha256}
use waychain_consensus.State.{StateDb, account_at, put_account, touch}
use waychain_consensus.Precompile.{
  Call, pure, ◌>>=◌, ◌>>◌, require, open_account, load, store, precompile_addr_hex, storage_key,
}

pub record ScheduledTask : Type 0 where
  pub id : Bytes
  pub caller : Bytes
  pub feed_id : Bytes
  pub interval : ℕ
  pub next_block : ℕ
  pub last_executed : ℕ
  pub execution_count : ℕ
  pub max_executions : ℕ
  pub gas_price : ℕ
  pub reward : ℕ
  pub active : Bool

pub record TimeExecution : Type 0 where
  pub tasks : List (Bytes × ScheduledTask)
  pub task_order : List Bytes

-- `NewTimeExecution`
abbrev pub new_time_execution : TimeExecution
new_time_execution = record { tasks = []; task_order = [] }

pub data TaskError : Type 0 where
  interval_too_short : TaskError
  task_not_found : TaskError
  not_the_caller : TaskError

abbrev pub scheduler_addr : Bytes
scheduler_addr = precompile_addr_hex 13

abbrev pub task_count_slot : Bytes
task_count_slot = 1 ∷ []

-- What one block makes of a task, and whether the task runs in it: a step of `ExecuteDueTasks`.
unfoldable pub tick : ℕ → ScheduledTask → ScheduledTask × Bool
tick block t =
    if not t.active
    then (t, false)
    else if ltb 0 t.max_executions && leb t.max_executions t.execution_count
    then (record t { active = false }, false)
    else if leb t.next_block block
    then (
      record t {
        execution_count = (t.execution_count + 1) % 2 ^ 64;
        last_executed = block;
        next_block = (block + t.interval) % 2 ^ 64;
      },
      true,
    )
    else (t, false)

-- The reward of a run, to the account that scheduled the task.
unfoldable pub pay_reward : ScheduledTask → StateDb → StateDb
pay_reward t s =
    let acc = account_at t.caller s in
    if ltb 0 t.reward
    then put_account t.caller (record acc { balance = acc.balance +ℤ pos t.reward }) s
    else s

-- `ExecuteDueTasks`: the identifiers of the tasks that ran. An identifier without a task is a nil pointer.
unfoldable pub execute_in_order :
    {E : Type 0} → ℕ → List Bytes → TimeExecution → Call E (List Bytes × TimeExecution)
unfolding tick pay_reward
execute_in_order block [] te = pure ([], te)
execute_in_order block (id ∷ ids) te = elim (lookup id te.tasks) [
  | none ↦ λ s. (panic, s)
  | some t ↦
      let r = tick block t in
      let te' = record te { tasks = insert id r.0 te.tasks } in
      let rest = execute_in_order block ids te' in
      if r.1
      then (λ s. (rest >>= λ found. pure (id ∷ found.0, found.1)) (pay_reward r.0 s))
      else rest
]

abbrev pub execute_due_tasks :
    {E : Type 0} → ℕ → TimeExecution → Call E (List Bytes × TimeExecution)
execute_due_tasks block te = execute_in_order block te.task_order te

-- `CancelTask`
unfoldable pub cancel_task : Bytes → Bytes → TimeExecution → Outcome TaskError TimeExecution
cancel_task task_id caller te = elim (lookup task_id te.tasks) [
  | none ↦ err task_not_found
  | some t ↦
      if bytes_eq t.caller caller
      then ok (record te { tasks = insert task_id (record t { active = false }) te.tasks })
      else err not_the_caller
]

-- The tasks that are there, in order. A missing one is a nil pointer, which the two readers below do
-- not meet: both lists grow together.
unfoldable pub tasks_in_order : List Bytes → TimeExecution → List ScheduledTask
tasks_in_order [] te = []
tasks_in_order (id ∷ ids) te =
    let rest = tasks_in_order ids te in
    elim (lookup id te.tasks) [ none ↦ rest | some t ↦ t ∷ rest ]

-- `GetActiveTasks`
unfoldable pub active_in : List ScheduledTask → List ScheduledTask
active_in [] = []
active_in (t ∷ ts) = let rest = active_in ts in if t.active then t ∷ rest else rest

abbrev pub get_active_tasks : TimeExecution → List ScheduledTask
get_active_tasks te = active_in (tasks_in_order te.task_order te)

-- `GetTasksDueAt`
unfoldable pub due_in : ℕ → List ScheduledTask → List ScheduledTask
due_in block [] = []
due_in block (t ∷ ts) =
    let rest = due_in block ts in if t.active && (t.next_block == block) then t ∷ rest else rest

abbrev pub get_tasks_due_at : ℕ → TimeExecution → List ScheduledTask
get_tasks_due_at block te = due_in block (tasks_in_order te.task_order te)

module _ ⦃h : Sha256⦄ where
  -- `getTaskCount`
  abbrev pub get_task_count : {E : Type 0} → Call E ℕ
  get_task_count = do
    open_account scheduler_addr
    count ← load scheduler_addr (storage_key task_count_slot)
    pure (count % 2 ^ 64)

  -- `incrementTaskCount`
  unfoldable pub increment_task_count : {E : Type 0} → Call E (Unit {0})
  increment_task_count = do
    open_account scheduler_addr
    count ← get_task_count
    store scheduler_addr (storage_key task_count_slot) ((count + 1) % 2 ^ 64)

  -- The identifier of a new task.
  unfoldable pub task_id_of : Bytes → Bytes → ℕ → ℕ → Bytes
  unfolding hex
  task_id_of caller feed_id start_block number = h.sum256 (
      caller
      ++ codes ":"
      ++ hex feed_id
      ++ codes ":"
      ++ decimal start_block
      ++ codes ":"
      ++ decimal number)

  abbrev pub fresh_task : Bytes → Bytes → Bytes → ℕ → ℕ → ℕ → ℕ → ScheduledTask
  fresh_task task_id caller feed_id interval start_block max_executions reward = record {
    id = task_id;
    caller = caller;
    feed_id = feed_id;
    interval = interval;
    next_block = start_block;
    last_executed = 0;
    execution_count = 0;
    max_executions = max_executions;
    gas_price = 0;
    reward = reward;
    active = true;
  }

  -- `ScheduleTask`
  unfoldable pub schedule_task :
      Bytes → Bytes → ℕ → ℕ → ℕ → ℕ → TimeExecution → Call TaskError ((Bytes × ℕ) × TimeExecution)
  unfolding task_id_of increment_task_count
  schedule_task caller feed_id interval start_block max_executions reward te = do
    require (leb 100 interval) interval_too_short
    count ← get_task_count
    let task_id = task_id_of caller feed_id start_block ((count + 1) % 2 ^ 64)
    let task = fresh_task task_id caller feed_id interval start_block max_executions reward
    increment_task_count
    pure (
      (task_id, start_block),
      record { tasks = insert task_id task te.tasks; task_order = te.task_order ++ task_id ∷ [] },
    )
