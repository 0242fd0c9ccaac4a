-- ===== src/TxPool.antt =====
-- chain.go: the pool of pending transactions, one queue for each execution lane.
-- A count is not negative, as in every call of the node.
pub mod Queues
mod Tests
use waychain_consensus.Prelude.{
  ℕ, ◌+◌, List, [], ◌∷◌, ◌++◌, ltb, ◌==◌, if◌then◌else◌, length, take, drop,
}
use waychain_consensus.State.{oracle_lane, private_lane}
use waychain_consensus.Types.{Transaction}

pub record TxPool : Type 0 where
  pub consensus : List Transaction
  pub oracle : List Transaction
  pub private_txs : List Transaction

-- `NewTxPool`
abbrev pub new_tx_pool : TxPool
new_tx_pool = record { consensus = []; oracle = []; private_txs = [] }

-- `Add`: a lane that is neither private nor oracle counts as the consensus lane.
unfoldable pub add : Transaction → TxPool → TxPool
add tx p =
    if tx.lane == private_lane
    then record p { private_txs = p.private_txs ++ tx ∷ [] }
    else if tx.lane == oracle_lane
    then record p { oracle = p.oracle ++ tx ∷ [] }
    else record p { consensus = p.consensus ++ tx ∷ [] }

-- The count that a queue can serve.
abbrev pub clamp : ℕ → List Transaction → ℕ
clamp count txs = if ltb (length txs) count then length txs else count

-- `PopConsensus`
unfoldable pub pop_consensus : ℕ → TxPool → List Transaction × TxPool
pop_consensus count p =
    let n = clamp count p.consensus in
    if n == 0 then ([], p) else (take n p.consensus, record p { consensus = drop n p.consensus })

-- `PopOracle`
unfoldable pub pop_oracle : ℕ → TxPool → List Transaction × TxPool
pop_oracle count p =
    let n = clamp count p.oracle in
    if n == 0 then ([], p) else (take n p.oracle, record p { oracle = drop n p.oracle })

-- `PopPrivate`
unfoldable pub pop_private : ℕ → TxPool → List Transaction × TxPool
pop_private count p =
    let n = clamp count p.private_txs in
    if n == 0
    then ([], p)
    else (take n p.private_txs, record p { private_txs = drop n p.private_txs })

-- `Len`
unfoldable pub len : TxPool → ℕ
len p = length p.consensus + length p.oracle + length p.private_txs
