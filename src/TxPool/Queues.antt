-- ===== src/TxPool/Queues.antt =====
-- The pool loses, repeats and reorders nothing: each lane is a first-in first-out queue.
use waychain_consensus.Prelude.{
  ℕ, ◌+◌, ◌≡◌, refl, Bool, List, [], ◌∷◌, ◌++◌, not, ◌&&◌, arith, ltb, ◌==◌, if◌then◌else◌, length,
  take, drop, take-append-drop, length-append, ap, ◌∙◌, sym, zero, suc,
}
use waychain_consensus.State.{oracle_lane, private_lane}
use waychain_consensus.Types.{Transaction}
use waychain_consensus.TxPool.{
  TxPool, new_tx_pool, add, pop_consensus, pop_oracle, pop_private, len, clamp,
}

pub data PoolOp : Type 0 where
  submit : Transaction → PoolOp
  take_consensus : ℕ → PoolOp
  take_oracle : ℕ → PoolOp
  take_private : ℕ → PoolOp

-- The pool, and what it has handed out by lane.
pub record History : Type 0 where
  pub pool : TxPool
  pub from_consensus : List Transaction
  pub from_oracle : List Transaction
  pub from_private : List Transaction

abbrev pub new_history : History
new_history = record {
  pool = new_tx_pool;
  from_consensus = [];
  from_oracle = [];
  from_private = [];
}

unfoldable pub step : PoolOp → History → History
step (submit tx) hs = record hs { pool = add tx hs.pool }
step (take_consensus n) hs = record hs {
  pool = (pop_consensus n hs.pool).1;
  from_consensus = hs.from_consensus ++ (pop_consensus n hs.pool).0;
}
step (take_oracle n) hs = record hs {
  pool = (pop_oracle n hs.pool).1;
  from_oracle = hs.from_oracle ++ (pop_oracle n hs.pool).0;
}
step (take_private n) hs = record hs {
  pool = (pop_private n hs.pool).1;
  from_private = hs.from_private ++ (pop_private n hs.pool).0;
}

unfoldable pub run : List PoolOp → History → History
unfolding step
run [] hs = hs
run (op ∷ ops) hs = run ops (step op hs)

-- The transactions that some operations submit to a lane, in order.
unfoldable pub submitted : (Transaction → Bool) → List PoolOp → List Transaction
submitted wanted [] = []
submitted wanted (submit tx ∷ ops) =
    let rest = submitted wanted ops in if wanted tx then tx ∷ rest else rest
submitted wanted (take_consensus n ∷ ops) = submitted wanted ops
submitted wanted (take_oracle n ∷ ops) = submitted wanted ops
submitted wanted (take_private n ∷ ops) = submitted wanted ops

abbrev pub is_private : Transaction → Bool
is_private tx = tx.lane == private_lane

abbrev pub is_oracle : Transaction → Bool
is_oracle tx = tx.lane == oracle_lane

abbrev pub is_consensus : Transaction → Bool
is_consensus tx = not (is_private tx) && not (is_oracle tx)

-- What a lane has handed out and what it still holds.
unfoldable pub seen_consensus : History → List Transaction
seen_consensus hs = hs.from_consensus ++ hs.pool.consensus

unfoldable pub seen_oracle : History → List Transaction
seen_oracle hs = hs.from_oracle ++ hs.pool.oracle

unfoldable pub seen_private : History → List Transaction
seen_private hs = hs.from_private ++ hs.pool.private_txs

-- A lane sees just the submitted transactions that belong to it.
unfoldable pub one : (Transaction → Bool) → PoolOp → List Transaction
one wanted (submit tx) = if wanted tx then tx ∷ [] else []
one wanted (take_consensus n) = []
one wanted (take_oracle n) = []
one wanted (take_private n) = []

append_assoc : (xs ys zs : List Transaction) → (xs ++ ys) ++ zs ≡ xs ++ (ys ++ zs)
append_assoc [] ys zs = refl
append_assoc (x ∷ xs) ys zs = rw (append_assoc xs ys zs) refl

append_nil : (xs : List Transaction) → xs ++ [] ≡ xs
append_nil [] = refl
append_nil (x ∷ xs) = rw (append_nil xs) refl

submitted-step :
    (wanted : Transaction → Bool) (op : PoolOp) (ops : List PoolOp)
    → submitted wanted (op ∷ ops) ≡ one wanted op ++ submitted wanted ops
unfolding submitted one
submitted-step wanted (submit tx) ops = ground arith
submitted-step wanted (take_consensus n) ops = refl
submitted-step wanted (take_oracle n) ops = refl
submitted-step wanted (take_private n) ops = refl

-- Taking from the front of a queue.
popped : (got txs : List Transaction) (n : ℕ) → (got ++ take n txs) ++ drop n txs ≡ got ++ txs
popped got txs n =
    append_assoc got (take n txs) (drop n txs) ∙ ap (λ x. got ++ x) (take-append-drop n txs)

seen_consensus-step :
    (op : PoolOp) (hs : History)
    → seen_consensus (step op hs) ≡ seen_consensus hs ++ one is_consensus op
unfolding seen_consensus step one add pop_consensus pop_oracle pop_private
seen_consensus-step (submit tx) hs = ground (
  arith,
  append_assoc hs.from_consensus hs.pool.consensus (tx ∷ []),
  append_nil (hs.from_consensus ++ hs.pool.consensus),
)
seen_consensus-step (take_consensus n) hs = ground (
  arith,
  popped hs.from_consensus hs.pool.consensus (clamp n hs.pool.consensus),
  append_nil (hs.from_consensus ++ hs.pool.consensus),
  append_nil hs.from_consensus,
)
seen_consensus-step (take_oracle n) hs =
    ground (arith, append_nil (hs.from_consensus ++ hs.pool.consensus))
seen_consensus-step (take_private n) hs =
    ground (arith, append_nil (hs.from_consensus ++ hs.pool.consensus))

seen_oracle-step :
    (op : PoolOp) (hs : History) → seen_oracle (step op hs) ≡ seen_oracle hs ++ one is_oracle op
unfolding seen_oracle step one add pop_consensus pop_oracle pop_private
seen_oracle-step (submit tx) hs = ground (
  arith,
  append_assoc hs.from_oracle hs.pool.oracle (tx ∷ []),
  append_nil (hs.from_oracle ++ hs.pool.oracle),
)
seen_oracle-step (take_oracle n) hs = ground (
  arith,
  popped hs.from_oracle hs.pool.oracle (clamp n hs.pool.oracle),
  append_nil (hs.from_oracle ++ hs.pool.oracle),
  append_nil hs.from_oracle,
)
seen_oracle-step (take_consensus n) hs =
    ground (arith, append_nil (hs.from_oracle ++ hs.pool.oracle))
seen_oracle-step (take_private n) hs = ground (arith, append_nil (hs.from_oracle ++ hs.pool.oracle))

seen_private-step :
    (op : PoolOp) (hs : History) → seen_private (step op hs) ≡ seen_private hs ++ one is_private op
unfolding seen_private step one add pop_consensus pop_oracle pop_private
seen_private-step (submit tx) hs = ground (
  arith,
  append_assoc hs.from_private hs.pool.private_txs (tx ∷ []),
  append_nil (hs.from_private ++ hs.pool.private_txs),
)
seen_private-step (take_private n) hs = ground (
  arith,
  popped hs.from_private hs.pool.private_txs (clamp n hs.pool.private_txs),
  append_nil (hs.from_private ++ hs.pool.private_txs),
  append_nil hs.from_private,
)
seen_private-step (take_consensus n) hs =
    ground (arith, append_nil (hs.from_private ++ hs.pool.private_txs))
seen_private-step (take_oracle n) hs =
    ground (arith, append_nil (hs.from_private ++ hs.pool.private_txs))

-- A lane that grows by each operation's own transaction has grown by all of them.
lane_run :
    (wanted : Transaction → Bool) (seen : History → List Transaction)
    → ((op : PoolOp) (hs : History) → seen (step op hs) ≡ seen hs ++ one wanted op)
    → (ops : List PoolOp) (hs : History) → seen (run ops hs) ≡ seen hs ++ submitted wanted ops
unfolding run submitted
lane_run wanted seen grow [] hs = sym (append_nil (seen hs))
lane_run wanted seen grow (op ∷ ops) hs =
    lane_run wanted seen grow ops (step op hs)
    ∙ ap (λ x. x ++ submitted wanted ops) (grow op hs)
    ∙ append_assoc (seen hs) (one wanted op) (submitted wanted ops)
    ∙ ap (λ x. seen hs ++ x) (sym (submitted-step wanted op ops))

-- After any sequence of submissions and pops on a new pool: for each lane, what it has handed out,
-- in order, followed by what it still holds is just what has been submitted to it, in order. A
-- transaction of an unknown lane belongs to the consensus lane.
pub run-new_history-queues :
    (ops : List PoolOp)
    → let hs = run ops new_history in
      (hs.from_private ++ hs.pool.private_txs ≡ submitted is_private ops)
      × (hs.from_oracle ++ hs.pool.oracle ≡ submitted is_oracle ops)
      × (hs.from_consensus ++ hs.pool.consensus ≡ submitted is_consensus ops)
unfolding seen_consensus seen_oracle seen_private
run-new_history-queues ops = (
  lane_run is_private seen_private seen_private-step ops new_history,
  lane_run is_oracle seen_oracle seen_oracle-step ops new_history,
  lane_run is_consensus seen_consensus seen_consensus-step ops new_history,
)

length-take-clamp :
    (count : ℕ) (txs : List Transaction) → length (take (clamp count txs) txs) ≡ clamp count txs
length-take-clamp zero txs = ground arith
length-take-clamp (suc n) [] = ground arith
length-take-clamp (suc n) (x ∷ txs) = ground (arith, length-take-clamp n txs)

length-clamp :
    (count : ℕ) (txs : List Transaction)
    → length txs ≡ length (take (clamp count txs) txs) + length (drop (clamp count txs) txs)
length-clamp count txs = omega (
  arith,
  length-append (take (clamp count txs) txs) (drop (clamp count txs) txs),
  ap (λ xs. length xs) (take-append-drop (clamp count txs) txs),
)

-- Each of the three pops hands out as many transactions as are asked for, or the whole lane if it
-- has fewer, and `Len` falls by exactly that number.
pub len-pop :
    (count : ℕ) (p : TxPool)
    → (length (pop_consensus count p).0
        ≡ (if ltb (length p.consensus) count then length p.consensus else count))
      × (length (pop_oracle count p).0
          ≡ (if ltb (length p.oracle) count then length p.oracle else count))
      × (length (pop_private count p).0
          ≡ (if ltb (length p.private_txs) count then length p.private_txs else count))
      × (len p ≡ length (pop_consensus count p).0 + len (pop_consensus count p).1)
      × (len p ≡ length (pop_oracle count p).0 + len (pop_oracle count p).1)
      × (len p ≡ length (pop_private count p).0 + len (pop_private count p).1)
unfolding pop_consensus pop_oracle pop_private len
len-pop count p = (
  ground (arith, length-take-clamp count p.consensus),
  ground (arith, length-take-clamp count p.oracle),
  ground (arith, length-take-clamp count p.private_txs),
  ground (arith, length-clamp count p.consensus),
  ground (arith, length-clamp count p.oracle),
  ground (arith, length-clamp count p.private_txs),
)
