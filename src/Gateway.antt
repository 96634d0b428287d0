-- ===== src/Gateway.antt =====
-- packages/gateway: what the issuer publishes, reads off the chain and refuses.
pub mod Status
pub mod Kyc
pub mod Chain
pub mod Auth
