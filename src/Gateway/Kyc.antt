-- ===== src/Gateway/Kyc.antt =====
-- packages/gateway/src/kyc.
pub mod Age
pub mod Claims
pub mod RevocationIndex
pub mod Record
pub mod Issue
