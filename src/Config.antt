-- ===== src/Config.antt =====
-- The configuration file: internal/config, and internal/integration/configmap.go.
pub mod Model
pub mod Decode
pub mod Roundtrip
pub mod Expand
pub mod Validation
pub mod Accepted
pub mod Forms
pub mod Gate
pub mod Loaded
pub mod Front
pub mod Unmixed
pub mod Examples
