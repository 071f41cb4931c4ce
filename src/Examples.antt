-- ===== src/Examples.antt =====
-- Runs of the theorems on concrete inputs.
mod Daemon
mod Recovery
mod Hotkey
mod Loopback
mod Sender
mod Frame
mod Auth
mod Session
mod Process
mod Injector
mod Capture
mod Pairing
mod Exchange
