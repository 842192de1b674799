-- ===== src/Transaction.antt =====
-- Transactions as the pool and the queue see them: their data, the classes of transactions with a
-- faked sender, and the form that the pool keeps them in.
pub mod Types
pub mod Values
pub mod FakeSender
pub mod Coding
unfoldable pub use Types.*
unfoldable pub use Coding.*
