-- ===== src/Gateway/Auth.antt =====
-- packages/gateway/src/auth.
pub mod Der
pub mod Jws
