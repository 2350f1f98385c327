-- ===== src/Auth.antt =====
-- Operator sessions, pairing and CSRF tokens: internal/auth.
pub mod Session
pub mod Lifetime
pub mod History
pub mod Revoked
pub mod Identity
pub mod Pairing
pub mod Collect
pub mod SingleUse
pub mod Examples
