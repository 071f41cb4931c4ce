-- ===== src/Input.antt =====
-- crates/flowkey-input and the events of crates/flowkey-protocol.
pub mod Event
pub mod KeyCode
pub mod Hotkey
pub mod Loopback
pub mod Sink
pub mod Injector
pub mod Normalize
pub mod Capture
