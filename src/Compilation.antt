-- ===== src/Compilation.antt =====
-- packages/hardhat-core/src/internal/solidity/compilation-job.ts.
pub mod Jobs
pub mod Merging
