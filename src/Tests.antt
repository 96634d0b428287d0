-- ===== src/Tests.antt =====
-- Runs of the model at concrete inputs.
mod Identity
mod Kyc
mod Chain
mod Status
mod Presentation
mod Issuance
mod Auth
mod Sdk
