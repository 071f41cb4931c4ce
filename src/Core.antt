-- ===== src/Core.antt =====
-- crates/flowkey-core: the daemon's control state, its status and its recovery.
pub mod Daemon
pub mod Recovery
pub mod Backoff
pub mod Status
