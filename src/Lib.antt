-- ===== src/Lib.antt =====
-- flowkey shares one keyboard and mouse between computers: a daemon on each machine captures input,
-- sends it over an authenticated session, and injects what it receives. This development models the
-- logic of the daemons that is independent of the operating system.
--
-- Which file models what.
-- Core/Daemon: crates/flowkey-core/src/daemon.rs and session.rs. `DaemonRuntime` is the record of the
-- same name, and each method is a function of the same name from a runtime to a runtime and a result.
-- Core/Daemon/Calls puts the methods into one type of calls, so that a history is a list.
-- Core/Status: what crates/flowkey-core/src/status.rs shows of it.
-- Core/Recovery, Core/Backoff: crates/flowkey-core/src/recovery.rs. The tracker of held keys and
-- buttons with `observe` and `release_all`, and the delays between attempts to reconnect.
-- Input/Event: crates/flowkey-protocol/src/input.rs. Input/KeyCode, Input/Hotkey, Input/Loopback and
-- Input/Sink: keycode.rs, hotkey.rs, loopback.rs and lib.rs of crates/flowkey-input/src.
-- Net/Message and Net/Sas: crates/flowkey-protocol/src/message.rs. Net/Frame: frame.rs of
-- crates/flowkey-net/src. Net/Pairing: pairing.rs there, the exchange of identities.
-- Net/Sender: the sending end of a session in crates/flowkey-net/src/connection.rs, which merges
-- mouse moves and scrolls, with the worker that flushes them.
-- Net/Auth: the mutual authentication in the same file, over the keys, challenges and responses of
-- crates/flowkey-crypto/src (Crypto/Session). Crypto/Pairing: the offers of a pairing, in
-- handshake.rs there.
-- Net/Session: `run_authenticated_session` in the same file, and heartbeat.rs beside it.
-- Process: the tasks of crates/flowkey-daemon/src and the state they share: control_ipc.rs
-- (Process/Control), session_flow.rs (Process/Sessions), platform.rs (Process/Capture and
-- Process/Notes). Process/Events is a type of tasks that run one after the other.
-- Input/Injector: native_injector.rs of crates/flowkey-input/src in its build for Windows, the sink
-- that injects events by enigo.
-- Input/Normalize and Input/Capture: normalize.rs and capture.rs of crates/flowkey-input/src, from the
-- events of rdev to the signals that the daemon takes.
-- Base holds what the parts share, and Examples runs the theorems on concrete inputs.
--
-- How the parts meet: the authentication ends with the name of a peer, which the daemon's state takes
-- as a session. While that peer is controlled, the events that the hotkey tracker and the loopback
-- suppressor let pass go to the sender, which puts them into the channel as commands. On the other
-- side the held-key tracker observes the events that are injected, and releases what is down when
-- control is released.
--
-- How the code is read:
-- - A method with `&mut self` returns the new state. An error is a constructor where the code has a
--   message. Logging is left out.
-- - A clock reading is an argument, in the order in which the code reads the clock. An instant is a
--   natural number.
-- - A HashMap is an association list. Where the code takes its first key, which is any key, the
--   choice is an argument.
-- - A coordinate is an integer whose addition saturates at the bounds of an i32. A u64 delay
--   saturates at 2 ^ 64 - 1. A frame's length is a u32.
-- - A mutex is never poisoned, since nothing panics under its guard. An operation of the sender runs
--   under the guard of the mutex, so that a concurrent history is a list of operations; the worker's
--   sleep is the point where others run. The worker reads the shutdown flag once in a pass.
-- - The tasks of the daemon run on several threads and take one lock at a time. The functions of
--   Process are whole tasks, which run alone; in Process/Sessions the steps of a session's beginning
--   and end under one lock are functions too, and Process/Overlaps puts other tasks between them.
--   What other overlaps do, in the commands and the forwarding too, is not modelled.
-- - Loops are structural recursion on lists and texts, so that no fuel is needed.
-- - A turn of the session's loop is what its select! completes; the loop is a run over turns. In
--   Net/Session/Timers the loop is a run over the polls of the executor, with the timers of the
--   select!, whose branches are tried in the order of the source; the ticker of the metrics is left
--   out.
--
-- What is a parameter: bincode (Codec in Net/Frame, PairingCodec in Net/Pairing), SHA3-256
-- (Net/Sas), crossbeam's bounded channel (SendChannel in Net/Sender/Channel), ed25519_dalek, base64
-- and serde_json (Primitives in Crypto/Session, OfferText in Crypto/Pairing), an injector
-- (InputEventSink in Input/Sink) and enigo (EnigoApi in Input/Injector/Enigo), each with the laws
-- of its documentation that the theorems use. What enigo's calls do to buttons is assumed (see
-- there). The random texts of a challenge are arguments. The connection of Net/Auth is the list of
-- the messages that come and the number of writes that succeed.
--
-- What is not modelled: the addresses of a pairing, discovery, metrics, the framing of control
-- commands, the files of the status and the configuration, and the sockets and loops of
-- crates/flowkey-daemon, which are I/O around these parts; the hooks of the two platforms and the
-- injection of macOS, which are calls of the operating system, and the user interfaces.
pub mod Base
pub mod Core
pub mod Crypto
pub mod Input
pub mod Net
pub mod Process
pub mod Examples
