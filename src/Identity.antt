-- ===== src/Identity.antt =====
-- packages/identity: the credential schema and the status list that its verifiers read.
pub mod StatusListError
pub mod Base64
pub mod Bits
pub mod Gzip
pub mod StatusList
pub mod Decimal
pub mod Schema
pub mod Hashes
pub mod Binding
pub mod SubjectBinding
pub mod ReplayGuard
pub mod Points
pub mod Bbs
pub mod Credential
pub mod Verify
pub mod Predicates
