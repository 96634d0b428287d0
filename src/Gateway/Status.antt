-- ===== src/Gateway/Status.antt =====
-- packages/gateway/src/status: the signed status list document and its dereferencer.
pub mod CredentialError
pub mod Canonical
pub mod HttpsUrl
pub mod Credential
pub mod Resolution
pub mod Fetch
pub mod Resolver
