-- ===== src/Node.antt =====
-- provider/node.ts: the development network's node, over the pool, the chain and the filters.
pub mod State
pub mod Clock
pub mod Snapshots
pub mod Restore
pub mod Subscriptions
pub mod Polls
pub mod Building
pub mod Sizes
pub mod Filling
pub mod Mining
pub mod Sending
pub mod Frames
pub mod Growth
pub mod Settling
pub mod Progress
pub mod Blocks
pub mod Series
pub mod Gas
pub mod Estimation
pub mod Hardforks
pub mod Activations
pub mod Contexts
pub mod Accounts
pub mod Fees
pub mod FeeHistory
