-- ===== src/State.antt =====
-- The state engine of internal/state: pane generations, polling and client queues.
pub mod Generations
pub mod Lifecycle
pub mod Subscriber
pub mod Engine
pub mod Delivery
pub mod Polling
pub mod Runs
pub mod Ordered
pub mod Projection
pub mod Examples
