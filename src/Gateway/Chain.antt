-- ===== src/Gateway/Chain.antt =====
-- packages/gateway/src/chain: what a client reads back from the contract.
pub mod Errors
pub mod Epoch
