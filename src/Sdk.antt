-- ===== src/Sdk.antt =====
-- packages/sdk/src: what a wallet computes before it submits.
pub mod Expiry
pub mod Grants
