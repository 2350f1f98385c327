-- ===== src/Stores.antt =====
-- The in-memory stores of internal/server/stores.go.
pub mod Nonces
pub mod NonceHistory
pub mod Idem
pub mod IdemHistory
pub mod Rate
pub mod RateBound
pub mod Examples
