-- ===== src/Tunnel.antt =====
-- The supervised cloudflared child: internal/tunnel.
pub mod Config
pub mod Validate
pub mod Logs
pub mod Supervisor
pub mod Turns
pub mod Leftovers
pub mod Restarts
pub mod Orphan
pub mod Examples
