-- ===== src/Process/Sessions.antt =====
-- crates/flowkey-daemon/src/session_flow.rs: how a session joins the daemon, what its remote peer
-- asks for, and how it leaves. The session's own loop is Net/Session; the end of the channel that
-- the new sender feeds is the argument `channel`. Each task takes the locks of the runtime and of the
-- registry one after the other; its steps under one lock are functions of their own, between which
-- the steps of other tasks may come. `setup_session`, `cleanup_session` and `mark_lost_session` are
-- the tasks whose steps no other task comes between.
use flowkey.Base.{ℕ, String, Bool, true, false, not, Option, none, some, List, if◌then◌else◌}
use flowkey.Base.Assoc.{insert, remove}
use flowkey.Base.Result.{Result, ok, err}
use flowkey.Core.Daemon.{
  DaemonRuntime, RuntimeError, Outcome, Role, Sessions, mark_authenticated, mark_disconnected,
  toggle_controller, mark_controlled_by, release_control,
}
use flowkey.Core.Recovery.{HeldKeyTracker}
use flowkey.Core.Recovery
use flowkey.Input.Sink.{InputEventSink}
use flowkey.Net.Sender.Channel.{SendChannel, switch_control}
use flowkey.Net.Sender.State.{Sender, SendError, new_sender}
use flowkey.Net.Sender.{send_control_command}
use flowkey.Process.Notes.{push_runtime_note}
use flowkey.Process.State.{Daemon, is_controlling, publish_status_snapshot}

abbrev pub resumed_role : Result RuntimeError (Option Role) → Option Role
resumed_role (ok role) = role
resumed_role (err e) = none

abbrev pub add_note : Option String → DaemonRuntime → DaemonRuntime
add_note none r = r
add_note (some note) r = push_runtime_note note r

module _ {C : Type 0} where
  -- The session is marked authenticated, under the lock of the runtime.
  abbrev pub authenticate : String → Daemon C → Daemon C × Option Role
  authenticate peer d =
      let (r, role) = mark_authenticated peer d.runtime in
      (record d { runtime = r }, resumed_role role)

  -- The new sender goes into the registry, and the old one out of it, under the registry's lock.
  abbrev pub register_sender : String → Sender C → Daemon C → Daemon C
  register_sender peer sender d = record d {
    session_senders = insert peer sender d.session_senders;
  }

  abbrev pub remove_sender : String → Daemon C → Daemon C
  remove_sender peer d = record d { session_senders = remove peer d.session_senders }

  abbrev pub note_sink : String → Option String → Daemon C → Daemon C
  note_sink backend note d = record d {
    runtime = add_note note (record d.runtime {
      diagnostics = record d.runtime.diagnostics { input_injection_backend = backend };
    });
  }

  -- The runtime forgets the session, and local input is let go.
  abbrev pub disconnect : (Sessions → Option String) → String → Daemon C → Daemon C
  disconnect first_key peer d = record d {
    runtime = (mark_disconnected first_key peer d.runtime).0;
    suppression_state = false;
  }

  -- Control is taken up again once the request for it was sent.
  abbrev pub resume_control :
      Daemon C → Sender C × Result SendError (Unit {0}) → Daemon C × Sender C
  resume_control d (s, ok _) = (
    record d {
      runtime =
          if not (is_controlling d.runtime.state)
          then (toggle_controller d.runtime).0
          else d.runtime;
      suppression_state = true;
    },
    s,
  )
  resume_control d (s, err e) = (d, s)

  abbrev pub start_sender :
      SendChannel C → Option Role → String → Daemon C → Sender C → Daemon C × Sender C
  start_sender ch (some Role.controlling) request d s =
      resume_control d (send_control_command ch (switch_control request) s)
  start_sender ch _ request d s = (d, s)

module _ {C : Type 0} (sort : List String → List String) where
  -- `apply_state_transition_and_log`, on the outcome of the transition.
  abbrev pub apply_state_transition_and_log :
      Daemon C → Outcome (Unit {0}) → Daemon C × Result RuntimeError (Unit {0})
  apply_state_transition_and_log d (r, ok _) =
      (publish_status_snapshot sort (record d { runtime = r; suppression_state = false }), ok tt)
  apply_state_transition_and_log d (r, err e) = (record d { runtime = r }, err e)

  -- The flag is `accept_remote_control` of the configuration.
  unfoldable pub on_remote_switch : Bool → String → Daemon C → Daemon C
  unfolding publish_status_snapshot
  on_remote_switch accepts peer d =
      if not accepts
      then d
      else (apply_state_transition_and_log d (mark_controlled_by peer d.runtime)).0

  unfoldable pub on_remote_release : Daemon C → Daemon C
  unfolding publish_status_snapshot
  on_remote_release d = (apply_state_transition_and_log d (release_control d.runtime)).0

  module _ (ch : SendChannel C) where
    -- `setup_and_run_session` up to the session's loop. The platform's sink is known by its backend
    -- and its note.
    unfoldable pub setup_session :
        String → C → ℕ → String → String → Option String → Daemon C → Daemon C
    unfolding publish_status_snapshot push_runtime_note
    setup_session peer channel window request backend note d =
        let (authenticated, role) = authenticate peer d in
        let (started, sender) =
          start_sender ch role request authenticated (new_sender channel window) in
        let registered = publish_status_snapshot sort (register_sender peer sender started) in
        publish_status_snapshot sort (note_sink backend note registered)

  module _ (first_key : Sessions → Option String) where
    -- What is held by the session's sink is released, with errors logged.
    unfoldable pub cleanup_session :
        {S : Type 0}
        → InputEventSink S
        → String
        → HeldKeyTracker
        → S
        → Daemon C
        → Daemon C × HeldKeyTracker × S
    unfolding publish_status_snapshot
    cleanup_session sink peer held s d =
        let removed = remove_sender peer d in
        let (held_now, s_now, recovery) = Recovery.release_all sink held s in
        let s_end = (sink.release_all s_now).0 in
        (publish_status_snapshot sort (disconnect first_key peer removed), held_now, s_end)

    unfoldable pub mark_lost_session : String → Daemon C → Daemon C
    unfolding publish_status_snapshot
    mark_lost_session peer d =
        publish_status_snapshot sort (disconnect first_key peer (remove_sender peer d))
