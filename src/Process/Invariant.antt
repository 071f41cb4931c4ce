-- ===== src/Process/Invariant.antt =====
-- The runtime's invariant over histories of the daemon's tasks, run one after the other.
use flowkey.Base.{ℕ, String, Option, none, some, List, [], ◌∷◌, arith, String_eq, Bool_eq}
use flowkey.Base.Result.{Result, ok, err}
use flowkey.Core.Daemon.{
  DaemonRuntime, Outcome, Role, Sessions, RuntimeDiagnostics, mark_authenticated,
}
use flowkey.Core.Daemon.Invariant.{
  Inv, new_runtime-Inv, mark_authenticated-Inv, mark_disconnected-Inv, toggle_controller-Inv,
  mark_controlled_by-Inv, release_control-Inv, select_active_peer-Inv,
}
use flowkey.Input.Event.{InputEvent}
use flowkey.Net.Sender.Channel.{SendChannel, switch_control}
use flowkey.Net.Sender.State.{Sender, SendError, new_sender}
use flowkey.Net.Sender.{send_input, send_control_command}
use flowkey.Process.Notes.{push_runtime_note}
use flowkey.Process.State.{
  Daemon, new_daemon, publish_status_snapshot, notify_peer_switch, notify_peer_release,
}
use flowkey.Process.Control.{
  switch, release, after_switch, after_release, switch_runtime, switch_runtime-keeps,
  handle_control_command,
}
use flowkey.Process.Sessions.{
  resumed_role, start_sender, resume_control, setup_session, cleanup_session, mark_lost_session,
  on_remote_switch, on_remote_release,
}
use flowkey.Process.Capture.{on_hotkey_pressed, on_input, after_toggle, after_forward, forward_to}
use flowkey.Process.Events.{
  Event, begins, ends, commanded, hotkey, captured, switched_by, released_by, Setting, step, run,
}

-- The invariant does not read the diagnostics.
pub diagnosed-Inv :
    (r : DaemonRuntime) (diagnostics : RuntimeDiagnostics)
    → Inv r
    → Inv (record r { diagnostics = diagnostics })
diagnosed-Inv r diagnostics v = record {
  known = v.known;
  named = v.named;
  active_set = v.active_set;
  fits = v.fits;
}

module _ {C : Type 0} (sort : List String → List String) (ch : SendChannel C) where
  resume_control-Inv :
      (d : Daemon C) (result : Sender C × Result SendError (Unit {0}))
      → Inv d.runtime
      → Inv (resume_control d result).0.runtime
  resume_control-Inv d (s, ok _) v = ground (arith, v, toggle_controller-Inv d.runtime v)
  resume_control-Inv d (s, err e) v = v

  start_sender-Inv :
      (role : Option Role) (request : String) (d : Daemon C) (s : Sender C)
      → Inv d.runtime
      → Inv (start_sender ch role request d s).0.runtime
  start_sender-Inv (some Role.controlling) request d s v =
      resume_control-Inv d (send_control_command ch (switch_control request) s) v
  start_sender-Inv (some Role.controlled_by) request d s v = v
  start_sender-Inv none request d s v = v

  after_switch-Inv :
      (peer a b : String) (d : Daemon C) (o : Outcome (Option String))
      → Inv o.0
      → Inv (after_switch sort ch peer a b d o).0.runtime
  unfolding after_switch publish_status_snapshot notify_peer_switch notify_peer_release
  after_switch-Inv peer a b d (r, ok none) v = v
  after_switch-Inv peer a b d (r, ok (some previous)) v = ground (arith, v)
  after_switch-Inv peer a b d (r, err e) v = v

  after_forward-Inv :
      (first_key : Sessions → Option String) (peer : String) (d : Daemon C)
      (result : Sender C × Result SendError (Unit {0}))
      → Inv d.runtime
      → Inv (after_forward sort ch first_key peer d result).runtime
  unfolding after_forward mark_lost_session publish_status_snapshot
  after_forward-Inv first_key peer d (s, ok _) v = v
  after_forward-Inv first_key peer d (s, err e) v = mark_disconnected-Inv d.runtime v first_key peer

  forward_to-Inv :
      (first_key : Sessions → Option String) (e : InputEvent) (now : ℕ) (target : Option String)
      (sender : Option (Sender C)) (d : Daemon C)
      → Inv d.runtime
      → Inv (forward_to sort ch first_key e now target sender d).runtime
  unfolding forward_to mark_lost_session publish_status_snapshot
  forward_to-Inv first_key e now none sender d v = v
  forward_to-Inv first_key e now (some peer) none d v =
      mark_disconnected-Inv d.runtime v first_key peer
  forward_to-Inv first_key e now (some peer) (some s) d v =
      after_forward-Inv first_key peer d (send_input ch e now s) v

  setup-Inv :
      (peer : String) (channel : C) (window : ℕ) (request backend : String) (note : Option String)
      (d : Daemon C)
      → Inv d.runtime
      → Inv (setup_session sort ch peer channel window request backend note d).runtime
  unfolding setup_session publish_status_snapshot push_runtime_note
  setup-Inv peer channel window request backend none d v = diagnosed-Inv _ _ (
      start_sender-Inv (resumed_role (mark_authenticated peer d.runtime).1) request _
        (new_sender channel window) (mark_authenticated-Inv d.runtime v peer))
  setup-Inv peer channel window request backend (some note) d v = diagnosed-Inv _ _ (
      start_sender-Inv (resumed_role (mark_authenticated peer d.runtime).1) request _
        (new_sender channel window) (mark_authenticated-Inv d.runtime v peer))

module _ {C S : Type 0} (setting : Setting C S) where
  pub step-Inv : (e : Event C S) (d : Daemon C) → Inv d.runtime → Inv (step setting e d).runtime
  unfolding step
  step-Inv (begins peer channel request) d v =
      setup-Inv setting.sort setting.channels peer channel setting.window request setting.backend
        setting.note d v
  step-Inv (ends peer held s) d v =
      unfold cleanup_session publish_status_snapshot in
      mark_disconnected-Inv d.runtime v setting.first_key peer
  step-Inv (commanded (switch peer) a b) d v =
      unfold handle_control_command in
      after_switch-Inv setting.sort setting.channels peer a b d (switch_runtime peer d.runtime) (
        switch_runtime-keeps Inv release_control-Inv (λ r p w. select_active_peer-Inv r w p)
          toggle_controller-Inv peer d.runtime v)
  step-Inv (commanded release a b) d v =
      unfold handle_control_command after_release publish_status_snapshot notify_peer_release in
      ground (arith, release_control-Inv d.runtime v)
  step-Inv (hotkey request) d v =
      unfold on_hotkey_pressed after_toggle publish_status_snapshot notify_peer_release
        notify_peer_switch in
      ground (arith, toggle_controller-Inv d.runtime v)
  step-Inv (captured e now) d v =
      unfold on_input in
      forward_to-Inv setting.sort setting.channels setting.first_key e now _ _ d v
  step-Inv (switched_by peer) d v =
      unfold on_remote_switch publish_status_snapshot in
      ground (arith, v, mark_controlled_by-Inv d.runtime v peer)
  step-Inv (released_by peer) d v =
      unfold on_remote_release publish_status_snapshot in
      ground (arith, release_control-Inv d.runtime v)

  run_from-Inv :
      (es : List (Event C S)) (d : Daemon C) → Inv d.runtime → Inv (run setting es d).runtime
  unfolding run
  run_from-Inv [] d v = v
  run_from-Inv (e ∷ es) d v = run_from-Inv es (step setting e d) (step-Inv e d v)

  -- After any tasks, one after the other, the runtime satisfies the invariant of its methods.
  pub process-Inv : (es : List (Event C S)) → Inv (run setting es (new_daemon setting.sort)).runtime
  unfolding new_daemon
  process-Inv es = run_from-Inv es (new_daemon setting.sort) new_runtime-Inv
