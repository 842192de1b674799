-- ===== src/TxPool.antt =====
-- provider/TxPool.ts, the mempool: its state, its methods, and what they keep true.
pub mod State
pub mod Nonces
pub mod Reorganize
pub mod Promotion
pub mod Add
pub mod Replacement
pub mod Placement
pub mod Admission
pub mod Invariant
pub mod Effects
pub mod Snapshots
pub mod Remove
pub mod Removal
pub mod Frames
pub mod History
