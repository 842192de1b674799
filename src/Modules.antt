-- ===== src/Modules.antt =====
-- provider/modules: the JSON-RPC methods that control the node. A request's parameters are decoded;
-- what is logged is left out.
pub mod Evm
pub mod Hardhat
pub mod NextBlock
