-- ===== src/Tests.antt =====
-- The definitions run on concrete inputs, and the theorems applied where their hypotheses hold.
mod Pool
mod Queue
mod Logs
mod Chain
mod Setting
mod Node
mod Modules
mod Names
mod Timer
mod Jobs
