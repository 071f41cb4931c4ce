-- ===== src/Net.antt =====
-- crates/flowkey-net and the messages of crates/flowkey-protocol.
pub mod Message
pub mod Frame
pub mod Sender
pub mod Auth
pub mod Session
pub mod Sas
pub mod Pairing
