-- ===== src/Chain/Linking.antt =====
-- What holds of the blocks of a chain, however it came about.
use waychain_consensus.Prelude.{
  ℕ, ◌+◌, ◌%◌, ◌^◌, ◌≤◌, ◌≡◌, refl, List, [], ◌∷◌, ◌++◌, arith, Outcome, ok, err, panic, Bytes,
  length, Option, sym,
}
use waychain_consensus.Prelude.Int.{ℤ}
use waychain_consensus.Hashing.{Sha256}
use waychain_consensus.Validators.{ValidatorId}
use waychain_consensus.Types.{Transaction, Block}
use waychain_consensus.State.{StateDb}
use waychain_consensus.TxPool.{add, pop_consensus}
use waychain_consensus.Execution.Results.{Never}
use waychain_consensus.Staking.{Floats, ProgressiveStaking}
use waychain_consensus.Econo.{Econo}
use waychain_consensus.Chain.Transactions.{Node}
use waychain_consensus.Chain.{
  Chain, last_hash, zero_hash, compute_hash, run_block, assemble, append_block, settled, extended,
  settle, produce_block,
}
use waychain_consensus.Chain.Signing.{
  AllSigned, AreSignedOutcome, run_block-signed, length-pop_consensus,
}

-- The height of the last block, or a given one where there is none.
unfoldable pub last_height : ℕ → List Block → ℕ
last_height height [] = height
last_height height (b ∷ bs) = last_height b.height bs

module _ ⦃h : Sha256⦄ (node : Node) where
  -- Each block has the hash of its fields, names the hash of the block before it, counts one more, and
  -- holds at most ten transactions, all signed.
  unfoldable pub IsLinked : Bytes → ℕ → List Block → Type 0
  IsLinked hash height [] = Unit
  IsLinked hash height (b ∷ bs) =
      (b.prev_hash ≡ hash)
      × (b.height ≡ (height + 1) % 2 ^ 64)
      × (b.hash ≡ compute_hash b)
      × (length b.transactions ≤ 10)
      × AllSigned node b.transactions
      × IsLinked b.hash b.height bs

  IsLinked-append :
      (hash : Bytes) (height : ℕ) (bs : List Block) (b : Block)
      → IsLinked hash height bs
      → IsLinked (last_hash hash bs) (last_height height bs) (b ∷ [])
      → IsLinked hash height (bs ++ b ∷ [])
  unfolding IsLinked last_hash last_height
  IsLinked-append hash height [] b old new = new
  IsLinked-append hash height (c ∷ bs) b (prev, count, own, few, signed, old) new =
      (prev, count, own, few, signed, IsLinked-append c.hash c.height bs b old new)

  last_height-append :
      (height : ℕ) (bs : List Block) (b : Block) → last_height height (bs ++ b ∷ []) ≡ b.height
  unfolding last_height
  last_height-append height [] b = refl
  last_height-append height (c ∷ bs) b = last_height-append c.height bs b

  module _ (fl : Floats) where
    -- The blocks are linked from the start on, and the height is that of the last one.
    unfoldable pub IsSound : Chain node fl → Type 0
    IsSound c = IsLinked zero_hash 0 c.blocks × (c.height ≡ last_height 0 c.blocks)

    settled-IsSound :
        (c : Chain node fl) (r : Outcome Never (Option (ProgressiveStaking fl) × Econo) × StateDb)
        → IsSound c
        → IsSound (settled node fl c r).1
    unfolding IsSound settled
    settled-IsSound c (ok done, t) sound = sound
    settled-IsSound c (err e, t) sound = elim e [ ]
    settled-IsSound c (panic, t) sound = sound

    append_block-IsSound :
        (now : ℤ) (proposer : ValidatorId) (txs : List Transaction) (s : StateDb)
        (c : Chain node fl)
        → AllSigned node txs × (length txs ≤ 10)
        → IsSound c
        → IsSound (append_block node fl now proposer txs s c)
    unfolding IsSound append_block assemble IsLinked compute_hash
    append_block-IsSound now proposer txs s c (all, few) (linked, at_end) = (
      IsLinked-append zero_hash 0 c.blocks _ linked
          (refl, omega (arith, at_end), refl, few, all, tt),
      sym (last_height-append 0 c.blocks _),
    )

    extended-IsSound :
        (now : ℤ) (proposer : ValidatorId) (c : Chain node fl)
        (r : Outcome Never (List Transaction) × StateDb)
        → AreSignedOutcome node 10 r.0
        → IsSound c
        → IsSound (extended node fl now proposer c r).1
    unfolding extended AreSignedOutcome
    extended-IsSound now proposer c (ok txs, s) all sound =
        settled-IsSound next (settle node fl next next.state)
          (append_block-IsSound now proposer txs s c all sound)
      where
        next : Chain node fl
        next = append_block node fl now proposer txs s c
    extended-IsSound now proposer c (err e, s) all sound = elim e [ ]
    extended-IsSound now proposer c (panic, s) all sound = sound

    fewer-signed :
        (count limit : ℕ) (r : Outcome Never (List Transaction))
        → count ≤ limit
        → AreSignedOutcome node count r
        → AreSignedOutcome node limit r
    unfolding AreSignedOutcome
    fewer-signed count limit (ok txs) le (all, few) = (all, omega arith)
    fewer-signed count limit (err e) le all = tt
    fewer-signed count limit panic le all = tt

    pub produce_block-IsSound :
        (now : ℤ) (proposer : ValidatorId) (c : Chain node fl)
        → IsSound c
        → IsSound (produce_block node fl now proposer c).1
    unfolding produce_block
    produce_block-IsSound now proposer c sound =
        extended-IsSound now proposer c (run_block node ((c.height + 1) % 2 ^ 64) popped c.state)
          (fewer-signed (length popped) 10 _ (length-pop_consensus 10 c.pool)
            (run_block-signed node ((c.height + 1) % 2 ^ 64) popped c.state))
          sound
      where
        popped : List Transaction
        popped = (pop_consensus 10 c.pool).0

    -- What happens to a chain: a submission, or a block of a proposer at a time.
    pub data Event : Type 0 where
      submit : Transaction → Event
      produce : ℤ → ValidatorId → Event

    unfoldable pub apply : Event → Chain node fl → Chain node fl
    unfolding produce_block
    apply (submit tx) c = record c { pool = add tx c.pool }
    apply (produce now proposer) c = (produce_block node fl now proposer c).1

    unfoldable pub run : List Event → Chain node fl → Chain node fl
    unfolding apply
    run [] c = c
    run (e ∷ es) c = run es (apply e c)

    apply-IsSound : (e : Event) (c : Chain node fl) → IsSound c → IsSound (apply e c)
    unfolding apply IsSound
    apply-IsSound (submit tx) c sound = sound
    apply-IsSound (produce now proposer) c sound = produce_block-IsSound now proposer c sound

    run-IsSound : (es : List Event) (c : Chain node fl) → IsSound c → IsSound (run es c)
    unfolding run
    run-IsSound [] c sound = sound
    run-IsSound (e ∷ es) c sound = run-IsSound es (apply e c) (apply-IsSound e c sound)

    empty_at_start : (c : Chain node fl) → c.blocks ≡ [] → c.height ≡ 0 → IsSound c
    unfolding IsSound IsLinked last_height
    empty_at_start c empty start = rw (empty, start) (tt, refl)

    -- After any sequence of submissions and blocks on a chain without blocks: each block has the
    -- hash of its fields, names the hash of the block before it (zeros for the first) and counts
    -- one more. It holds at most ten transactions, and no transaction whose signature its sender's
    -- key does not verify.
    pub run-IsLinked :
        (es : List Event) (c : Chain node fl)
        → c.blocks ≡ []
        → c.height ≡ 0
        → IsLinked zero_hash 0 (run es c).blocks
    unfolding IsSound
    run-IsLinked es c empty start = (run-IsSound es c (empty_at_start c empty start)).0
