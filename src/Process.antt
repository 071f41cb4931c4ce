-- ===== src/Process.antt =====
-- crates/flowkey-daemon: the tasks of the daemon process and the state that they share. A task
-- takes one lock at a time, so that the steps of others may come between its own.
pub mod State
pub mod Control
pub mod Notes
pub mod Sessions
pub mod Capture
pub mod Events
pub mod Switch
pub mod Handover
pub mod Invariant
pub mod Hazards
pub mod Overlaps
