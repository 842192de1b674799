-- ===== src/Lib.antt =====
-- Verification of the core of the development network of Hardhat (the package hardhat-core): what
-- the node does, and its transaction pool, its block building queue, its log filters and its
-- blockchain.
--
-- Paths are from the repository's root; provider/ stands for
-- packages/hardhat-core/src/internal/hardhat-network/provider/.
--
-- Parts, and how they work together. `addTransaction` of the pool files a sender's transaction as
-- pending (its nonce follows on) or queued (it leaves a gap), and replaces one of the same nonce
-- that pays less; a pending transaction that closes a gap pulls queued ones after it
-- (`reorganizeTransactionsLists`). A block is built from the pending lists by a `TransactionQueue`,
-- which offers one transaction of each sender at a time, the best paid or the oldest first. After
-- a block `updatePendingAndQueued` drops what was mined. The blockchain keeps blocks, receipts and
-- reserved stretches of empty blocks, which become blocks when they are asked for. Logs are found
-- block by block, past a bloom test, with the criteria of filter.ts. The node (`HardhatNode`) holds
-- a pool and a chain: `sendTransaction` files a transaction and, with automining, mines blocks until
-- it is included; `mineBlock` chooses a timestamp, fills a block from a `TransactionQueue`, puts it
-- on the chain, tells the filters, and settles the clock; `mineBlocks` reserves most blocks of a long
-- series; `takeSnapshot` and `revertToSnapshot` save and bring back all of it.
--
-- Files, and the code that they model:
--   Transaction/Types        the records of provider/PoolState.ts, what is read of a transaction
--   Transaction/{Values, FakeSender}  the FakeSender classes of provider/transactions, and
--                            provider/utils/makeFakeSignature.ts
--   Transaction/Coding       serializeTransaction, deserializeTransaction of provider/TxPool.ts
--   TxPool/State             the fields of TxPool, its getters and private setters, snapshots
--   TxPool/Add               addTransaction, _validateTransaction, _addPendingTransaction,
--                            _addQueuedTransaction, _replaceTx and its callers
--   TxPool/Remove            removeTransaction, _removeTx, updatePendingAndQueued
--   TxPool/Reorganize        provider/utils/reorganizeTransactionsLists.ts
--   TxPool/{Nonces, Promotion, Replacement, Placement, Admission, Invariant, Effects, Snapshots,
--   Removal, Frames, History}  the proofs about the pool
--   TransactionQueue         provider/TransactionQueue.ts; its children have the proofs
--   Filter                   provider/filter.ts; its children have the proofs
--   Blockchain               provider/BlockchainData.ts, provider/BlockchainBase.ts,
--                            provider/HardhatBlockchain.ts; its children have the proofs
--   Node/State               the fields of HardhatNode of provider/node.ts, its snapshots
--   Node/Clock               timestamps and the offset: _calculateTimestampAndOffset, increaseTime
--   Node/{Building, Mining}  mineBlock, _mineBlockWithPendingTxs, _saveBlockAsSuccessfullyRun,
--                            the next base fee; the receipts of provider/output.ts
--   Node/{Sending, Blocks}   sendTransaction and what it calls; mineBlocks
--   Node/Snapshots           takeSnapshot, revertToSnapshot, _removeSnapshot
--   Node/Subscriptions       newFilter and its kin, polls, uninstallFilter, getLogs, notifications
--   Node/{Contexts, Accounts} _runInBlockContext, balances and nonces; accounts, dropTransaction
--   Node/{Gas, Fees, FeeHistory} the search for a gas limit, prices of a call, getFeeHistory
--   Node/Hardforks           packages/hardhat-core/src/internal/util/hardforks.ts, _selectHardfork
--   Node/{Sizes, Filling, Frames, Growth, Settling, Progress, Series, Restore, Polls, Estimation,
--   Activations}, Node/FeeHistory/{Lengths, Reading}  the proofs about the node
--   Modules/{Evm, Hardhat}   the methods of provider/modules/evm.ts and provider/modules/hardhat.ts
--                            that control the node; Modules/NextBlock has a proof about them
--   MiningTimer              provider/MiningTimer.ts
--   Reorgs                   provider/utils/reorgs-protection.ts
--   Compilation              packages/hardhat-core/src/internal/solidity/compilation-job.ts
--   Names                    packages/hardhat-core/src/utils/contract-names.ts
--   BigInt                   packages/hardhat-core/src/internal/util/bigint.ts
--   Prelude, Map             JavaScript's arrays, dictionaries and exceptions
--   Samples, Tests           example data, runs and witnesses
--
-- State and errors. A class is a record of its fields; a method takes the record and gives a result
-- or the exception, and in both cases the record it leaves. `await` is a call: the pool's methods
-- run under the node's mutex. Addresses, hashes and byte strings that are only compared are natural
-- numbers. bigint is ℕ, or ℤ where a value can be negative.
--
-- `deserializeTransaction` answers a transaction; where the source throws, on what no
-- `serializeTransaction` made, the model takes what ethereumjs' factory decodes (`decode_data` shows
-- the error).
--
-- Parameters stand for code of other packages: `Codec` (ethereumjs' encoding, RLP, the constructors
-- of the classes that the FakeSender classes extend, and md5, of which the first two words are taken
-- not to be 0), `Externals` (that, the factory of transactions, the order in which immutable goes
-- through a Map, and its sortBy), `Heap` (mnemonist's heap), `BlockLib` (Block.fromBlockData), the bloom's
-- check, the accounts that the state manager reads, `JobLib` (lodash, semver), and `Vm`, ethereumjs'
-- VM with its block builder and state manager. Their laws are fields of those records: a built block
-- has its parent's number and one, the time and the transactions it is built with, and a transaction
-- spends at most its gas limit. The state of the accounts is known by its root. The time `now` is an
-- argument of a call; calls that mine several blocks take a function, the time when the chain has
-- a length.
--
-- Fuel. The loop that fills a block has the number of pending transactions and one as fuel: each
-- round takes one out of the queue. The search for a gas limit has 22, since it stops
-- after round 20. The loops of `_mineBlocksUntilTransactionIsIncluded` take theirs as an argument: how
-- many blocks a transaction waits for is up to the VM. `_delBlock`
-- has the length of the chain plus one as fuel, and each round moves on by at least one block; the
-- timestamp of block n has n + 1, since each call is for a smaller block number.
--
-- Not modelled: EVM execution; of the node `runCall`, the run that starts `estimateGas`, code and
-- storage, tracing, signing and the texts of errors; the forked chain, but for the choice of a
-- hardfork; the other JSON-RPC modules and the decoding of parameters; the compiler, tasks and
-- configuration, which call other packages, the network or the file system at every step.
pub mod BigInt
pub mod Blockchain
pub mod Compilation
pub mod Filter
pub mod Map
pub mod MiningTimer
pub mod Modules
pub mod Names
pub mod Node
pub mod Prelude
pub mod Reorgs
pub mod Samples
pub mod Tests
pub mod Transaction
pub mod TransactionQueue
pub mod TxPool
