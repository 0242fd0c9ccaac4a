-- ===== src/Scheduler/Tests.antt =====
-- Runs of a task, and the theorem on its times at a concrete input.
use waychain_consensus.Prelude.{ℕ, ◌+◌, ◌≡◌, ◌≤◌, refl, arith, List, [], ◌∷◌, length, codes}
use waychain_consensus.Scheduler.{ScheduledTask, fresh_task, tick}
use waychain_consensus.Hashing.{plain_digest}
use waychain_consensus.Scheduler.Timing.{executions, IsSpaced, AllBelow, executions_limited}

abbrev hourly : ScheduledTask
hourly = fresh_task (codes "id") (codes "ann") (codes "feed") 100 10 2 5

abbrev blocks : List ℕ
blocks = 5 ∷ 20 ∷ 60 ∷ 120 ∷ 300 ∷ []

executions_limited_example :
    (length (executions blocks hourly) + 0 ≤ 2) × IsSpaced 100 10 (executions blocks hourly)
unfolding AllBelow
executions_limited_example =
    executions_limited blocks hourly (omega arith) (omega arith) (omega arith)
      (omega arith, (omega arith, (omega arith, (omega arith, (omega arith, tt)))))

executions_test : executions blocks hourly ≡ 20 ∷ 120 ∷ []
unfolding executions tick
executions_test = refl
