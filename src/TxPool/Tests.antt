-- ===== src/TxPool/Tests.antt =====
-- Runs of the transaction pool, and its theorems at concrete inputs.
use waychain_consensus.Prelude.{ℕ, ◌≡◌, refl, List, [], ◌∷◌, ◌++◌}
use waychain_consensus.Types.{Transaction}
use waychain_consensus.TxPool.{TxPool, new_tx_pool, add}
use waychain_consensus.TxPool.Queues.{
  PoolOp, submit, take_consensus, take_private, new_history, run, submitted, is_private, is_oracle,
  is_consensus, run-new_history-queues,
}

abbrev tx : ℕ → ℕ → Transaction
tx nonce lane = record {
  nonce = nonce;
  from = [];
  to = [];
  value = 1;
  gas_limit = 21000;
  gas_price = 1;
  gas_used = 0;
  calldata = [];
  hash = [];
  signature = [];
  lane = lane;
  encrypted_data = [];
  logs = [];
}

abbrev ops : List PoolOp
ops = submit (tx 1 0) ∷ submit (tx 2 2) ∷ submit (tx 3 7) ∷ take_consensus 1 ∷ take_private 9 ∷ []

run-new_history-queues_example :
    ((run ops new_history).from_private ++ (run ops new_history).pool.private_txs
      ≡ submitted is_private ops)
    × ((run ops new_history).from_oracle ++ (run ops new_history).pool.oracle
        ≡ submitted is_oracle ops)
    × ((run ops new_history).from_consensus ++ (run ops new_history).pool.consensus
        ≡ submitted is_consensus ops)
run-new_history-queues_example = run-new_history-queues ops

-- The consensus lane of this run has handed out its first transaction and holds the other, of an
-- unknown lane.
lanes_test : submitted is_consensus ops ≡ tx 1 0 ∷ tx 3 7 ∷ []
unfolding submitted
lanes_test = refl

abbrev pool_of_two : TxPool
pool_of_two = add (tx 2 0) (add (tx 1 0) new_tx_pool)
