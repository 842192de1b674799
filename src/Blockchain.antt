-- ===== src/Blockchain.antt =====
-- The local chain: provider/BlockchainData.ts, provider/BlockchainBase.ts and
-- provider/HardhatBlockchain.ts.
pub mod Data
pub mod Chain
pub mod Reservations
pub mod Logs
pub mod Passing
pub mod Holders
pub mod Stores
pub mod Fulfilment
pub mod Timestamps
pub mod Lookup
pub mod Deletion
pub mod Truncation
pub mod Growth
pub mod Appending
pub mod Serving
