-- ===== src/Scheduler/Timing.antt =====
-- When a task runs, over any sequence of blocks.
use waychain_consensus.Prelude.{
  ℕ, ◌+◌, ◌-◌, ◌^◌, ◌≤◌, ◌<◌, List, [], ◌∷◌, arith, if◌then◌else◌, length,
}
use waychain_consensus.Scheduler.{ScheduledTask, tick}

-- The blocks of a sequence in which a task runs.
unfoldable pub executions : List ℕ → ScheduledTask → List ℕ
executions [] t = []
executions (b ∷ bs) t =
    let rest = executions bs (tick b t).0 in if (tick b t).1 then b ∷ rest else rest

-- The first is not before a block, and each further one is an interval later.
unfoldable pub IsSpaced : ℕ → ℕ → List ℕ → Type 0
IsSpaced interval earliest [] = Unit
IsSpaced interval earliest (b ∷ bs) = (earliest ≤ b) × IsSpaced interval (b + interval) bs

unfoldable pub AllBelow : ℕ → List ℕ → Type 0
AllBelow limit [] = Unit
AllBelow limit (b ∷ bs) = (b < limit) × AllBelow limit bs

executions_bounded :
    (bs : List ℕ) (t : ScheduledTask)
    → 0 < t.max_executions
    → t.max_executions < 2 ^ 64
    → t.execution_count ≤ t.max_executions
    → length (executions bs t) + t.execution_count ≤ t.max_executions
unfolding executions tick
executions_bounded [] t some_max small within = omega arith
executions_bounded (b ∷ bs) t some_max small within =
    ground (arith, executions_bounded bs (tick b t).0)

executions-IsSpaced :
    (bs : List ℕ) (t : ScheduledTask)
    → AllBelow (2 ^ 64 - t.interval) bs
    → IsSpaced t.interval t.next_block (executions bs t)
unfolding executions tick IsSpaced AllBelow
executions-IsSpaced [] t small = tt
executions-IsSpaced (b ∷ bs) t small = ground (arith, executions-IsSpaced bs (tick b t).0)

-- For a task with a maximum of runs below 2^64 that it has not exceeded, and any sequence of blocks
-- to which the interval can be added below 2^64: it runs no more often than the maximum allows. The
-- first run is not before its next block, and each further one is at least an interval after the
-- one before.
pub executions_limited :
    (bs : List ℕ) (t : ScheduledTask)
    → 0 < t.max_executions
    → t.max_executions < 2 ^ 64
    → t.execution_count ≤ t.max_executions
    → AllBelow (2 ^ 64 - t.interval) bs
    → (length (executions bs t) + t.execution_count ≤ t.max_executions)
      × IsSpaced t.interval t.next_block (executions bs t)
executions_limited bs t some_max small within blocks =
    (executions_bounded bs t some_max small within, executions-IsSpaced bs t blocks)
