-- ===== src/Process/Capture.antt =====
-- crates/flowkey-daemon/src/platform.rs: what the daemon does with the signals of the local capture.
-- The capture is one that stores the suppression flag: those of Windows, and the exclusive one of
-- macOS. The fresh sink that a switch releases holds nothing, and the release of the local modifiers
-- is a call of Windows; both are left out.
use flowkey.Base.{ℕ, String, Option, none, some, List}
use flowkey.Base.Assoc.{lookup, insert}
use flowkey.Base.Result.{Result, ok, err}
use flowkey.Core.Daemon.{
  DaemonState, controlling, connected_idle, Outcome, Sessions, toggle_controller,
}
use flowkey.Input.Event.{InputEvent}
use flowkey.Net.Sender.Channel.{SendChannel}
use flowkey.Net.Sender.State.{Sender, SendError}
use flowkey.Net.Sender.{send_input}
use flowkey.Process.State.{
  Daemon, is_controlling, publish_status_snapshot, notify_peer_switch, notify_peer_release,
}
use flowkey.Process.Sessions.{mark_lost_session}

module _ {C : Type 0} (ch : SendChannel C) where
  abbrev pub tell_toggled : DaemonState → Option String → String → Daemon C → Daemon C
  tell_toggled (controlling _) (some peer) request d = notify_peer_switch ch peer request d
  tell_toggled connected_idle (some peer) request d = notify_peer_release ch peer request d
  tell_toggled _ _ request d = d

-- The peer that captured input goes to.
abbrev pub forward_target : DaemonState → Option String → Option String
forward_target (controlling _) active = active
forward_target _ active = none

abbrev pub sender_of : {C : Type 0} → Option String → List (String × Sender C) → Option (Sender C)
sender_of none senders = none
sender_of (some peer) senders = lookup peer senders

module _ {C : Type 0} (sort : List String → List String) (ch : SendChannel C) where
  unfoldable pub after_toggle : String → Daemon C → Outcome (Unit {0}) → Daemon C
  unfolding publish_status_snapshot notify_peer_switch notify_peer_release
  after_toggle request d (r, ok _) = tell_toggled ch r.state r.active_peer_id request (
      publish_status_snapshot sort
        (record d { runtime = r; suppression_state = is_controlling r.state }))
  after_toggle request d (r, err e) = record d { runtime = r }

  -- `CaptureSignal::HotkeyPressed`.
  unfoldable pub on_hotkey_pressed : String → Daemon C → Daemon C
  unfolding after_toggle
  on_hotkey_pressed request d = after_toggle request d (toggle_controller d.runtime)

  module _ (first_key : Sessions → Option String) where
    unfoldable pub after_forward :
        String → Daemon C → Sender C × Result SendError (Unit {0}) → Daemon C
    unfolding mark_lost_session
    after_forward peer d (s, ok _) = record d { session_senders = insert peer s d.session_senders }
    after_forward peer d (s, err e) =
        mark_lost_session sort first_key peer
          (record d { session_senders = insert peer s d.session_senders })

    unfoldable pub forward_to :
        InputEvent → ℕ → Option String → Option (Sender C) → Daemon C → Daemon C
    unfolding after_forward mark_lost_session
    forward_to e now none sender d = d
    forward_to e now (some peer) (some s) d = after_forward peer d (send_input ch e now s)
    forward_to e now (some peer) none d = mark_lost_session sort first_key peer d

    -- `CaptureSignal::Input`; `now` is the sender's reading of the clock.
    unfoldable pub on_input : InputEvent → ℕ → Daemon C → Daemon C
    unfolding forward_to
    on_input e now d =
        let target = forward_target d.runtime.state d.runtime.active_peer_id in
        forward_to e now target (sender_of target d.session_senders) d
