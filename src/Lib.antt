-- ===== src/Lib.antt =====
-- WayChain: a proof-of-stake chain in Go, whose BFT consensus engine drives a block producer and an
-- execution layer of precompiles. This library models the node's state machines and proves what they
-- keep.
--
-- Parts, and the files that model them:
--
-- * The validator set (validators.go, `ValidatorID` of types.go): Validators, a record of sorted
--   identifiers, the Go maps `Stakes` and `Missed`, and the jailed list. `add`, `add_multiple`,
--   `remove`, `jail`, `mark_missed` and `total_stake` are the methods of those names.
-- * The consensus engine (consensus.go): Engine. It takes the validator set, elects the active set of
--   an epoch (`select_new_epoch`), picks proposers and records finalized blocks.
-- * The round manager (consensus_round.go): Round. It reads the engine, asks the chain for blocks
--   through the interface `BlockProducer`, counts votes and finalizes blocks in the engine. Its
--   handlers run under one lock, so each is one step; `start_round` is one step too, though the
--   code releases the lock between its parts; Round/Counting has the events of a node.
-- * The execution layer's state (evm/state.go): State, with accounts, storage slots and logs;
--   State/Storage has the laws of reading after writing.
-- * The vaults of the stablecoin (evm/two_way.go): TwoWay, with the operations under their Go names,
--   the keys of a vault's collateral and debt, and the tests of the ratios. It reads and writes the
--   debt records of StabilityPool. The order of the slots stands for that of Go's `range` over a map.
-- * The pool of pending transactions (chain.go, `TxPool`): TxPool, a queue for each lane, with `Add`,
--   the three `Pop`s and `Len`.
-- * The precompiles (evm/): Precompile has what they share, a call as an action on the state database,
--   the readers of the input (`selectorBytes`, `readSlot`, ...) and the hashed storage keys.
--   StabilityPool is evm/stability_pool.go (0x19), TrustlessLock is evm/trustless_lock.go (0x1A) and
--   AccountManager is evm/account_manager.go (0x1B), each with its dispatcher and every operation.
--   Under each, one file says what an operation writes and others what a history of calls keeps.
--   StabilityPool reads the debt of a vault from the account of evm/two_way.go.
-- * Governance (evm/governance.go): Governance, with proposals, votes and markets; Governance/Curators
--   has the applications, elections and rewards of curators.
-- * The chain (chain.go): Chain, with `ProduceBlock` cut into the execution of the transactions, the
--   block, and the rewards; Chain/Transactions has the hash, the signature and the checks of a
--   transaction. It takes from TxPool and calls Execution, Scheduler, Econo and Staking.
-- * One call of the execution layer (evm/interpreter.go, evm/revm_bridge.go): Execution, with the
--   bridge to the revm library in Execution/Bridge. The functions of the precompiles are behind the
--   interface `Precompiles`, the library behind `Revm`.
-- * The rewards of the validators (progressive_staking.go): Staking. The indicators of the economy and
--   the policy (evm/econo_loop.go): Econo. The recurring tasks (evm/oracle_scheduler.go): Scheduler.
-- * The precompiles 0x13 to 0x17 (evm/precompiles.go): Badges, Bijo, DeadMansSwitch, BitcoinRegistry and
--   StorageEndowment, each with its dispatcher. A key that is not hashed is one of their small slots.
-- * The SWAY token (evm/sway_token.go): SwayToken, with the phase of the economics as an argument.
-- * The rate limiter (rate_limit.go): RateLimit, with the two readings of the clock as arguments.
-- * The wire format (serialize.go): Serialize, with readers that give a value and the bytes left;
--   Serialize/RoundTrip and Serialize/Truncation are about reading what was written.
-- * The disk store (store/store.go): Store for accounts, Store/Blocks for blocks, transactions, their
--   index and the node's identity. encoding/gob is the parameter `Gob` and bbolt the parameter `Bolt`
--   of Store/Backend: a `Put` is found by `Get`, and what is encoded of a value decodes to it.
--
-- Conventions: Go's `uint64` sums that can wrap are written with `% 2 ^ 64`; strings and byte slices
-- are lists of byte values; a map is an association list, read and written by key. A call ends in
-- `ok`, in an `err` with the error, or in a `panic`. SHA-256 is the parameter `Sha256`, whose law is
-- that no two hashed inputs collide; float arithmetic is the parameter `Floats`. The only fuel is
-- that of decimal and hexadecimal printing and of `big.Int`'s `Bytes` (`n + 1` rounds for `n`). A
-- constant, key or slot of a large precompile stands in its child module Keys.
--
-- In the precompiles a slot is the number below 2^256 that its bytes spell; `big.Int`s that are only
-- compared and stored are naturals, and a negative difference that the code stores is written as its
-- absolute value, as `Bytes()` gives it. A number that does not fit its slot is a panic.
--
-- Not modelled: sockets, HTTP and RPC glue, the revm library, printing, and the
-- float-weighted proposer lottery of validators.go. Of the precompiles, those of mineral rights, templates,
-- attestations, privacy, tasks, swaps, the faucet, rent, the WAY stablecoin and oracle aggregation are not
-- modelled, nor is genesis.
pub mod Prelude
pub mod Hashing
pub mod Validators
pub mod State
pub mod Types
pub mod Engine
pub mod Round
pub mod Precompile
pub mod StabilityPool
pub mod TrustlessLock
pub mod AccountManager
pub mod TxPool
pub mod TwoWay
pub mod Execution
pub mod Econo
pub mod Scheduler
pub mod Staking
pub mod Chain
pub mod Governance
pub mod Serialize
pub mod Store
pub mod BitcoinRegistry
pub mod DeadMansSwitch
pub mod Badges
pub mod Bijo
pub mod StorageEndowment
pub mod RateLimit
pub mod SwayToken
