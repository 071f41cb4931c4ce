-- ===== src/Process/Events.antt =====
-- What happens to the daemon process when its tasks run one after the other: each event is one task.
-- Histories in which tasks overlap are not among these.
use flowkey.Base.{ℕ, String, Bool, Option, List, [], ◌∷◌}
use flowkey.Core.Daemon.{Sessions}
use flowkey.Core.Recovery.{HeldKeyTracker}
use flowkey.Input.Event.{InputEvent}
use flowkey.Input.Sink.{InputEventSink}
use flowkey.Net.Sender.Channel.{SendChannel}
use flowkey.Process.State.{Daemon}
use flowkey.Process.Control.{DaemonCommand, handle_control_command}
use flowkey.Process.Sessions.{on_remote_switch, on_remote_release, setup_session, cleanup_session}
use flowkey.Process.Capture.{on_hotkey_pressed, on_input}

-- A session of a peer begins with its channel, and ends with what its sink and tracker hold.
pub data Event (C S : Type 0) : Type 0 where
  begins : String → C → String → Event C S
  ends : String → HeldKeyTracker → S → Event C S
  commanded : DaemonCommand → String → String → Event C S
  hotkey : String → Event C S
  captured : InputEvent → ℕ → Event C S
  switched_by : String → Event C S
  released_by : String → Event C S

-- What the process is run with: the order of a status, the channels and the platform's sink, the
-- first key of a map, the window of a sender, the name and the note of the sink, and whether the
-- configuration accepts remote control.
pub record Setting (C S : Type 0) : Type 0 where
  pub sort : List String → List String
  pub channels : SendChannel C
  pub sinks : InputEventSink S
  pub first_key : Sessions → Option String
  pub window : ℕ
  pub backend : String
  pub note : Option String
  pub accept_remote_control : Bool

module _ {C S : Type 0} (setting : Setting C S) where
  open setting use {sort, channels, sinks, first_key, window, backend, note, accept_remote_control}

  unfoldable pub step : Event C S → Daemon C → Daemon C
  step (begins peer channel request) d =
      setup_session sort channels peer channel window request backend note d
  step (ends peer held s) d = (cleanup_session sort first_key sinks peer held s d).0
  step (commanded command request_a request_b) d =
      (handle_control_command sort channels command request_a request_b d).0
  step (hotkey request) d = on_hotkey_pressed sort channels request d
  step (captured e now) d = on_input sort channels first_key e now d
  step (switched_by peer) d = on_remote_switch sort accept_remote_control peer d
  step (released_by peer) d = on_remote_release sort d

  unfoldable pub run : List (Event C S) → Daemon C → Daemon C
  unfolding step
  run [] d = d
  run (e ∷ es) d = run es (step e d)
