-- ===== src/Process/Overlaps.antt =====
-- What happens when the steps of two tasks come between each other.
use flowkey.Base.{
  ℕ, String, true, false, Option, some, is_some, List, ◌≡◌, ◌≢◌, ap, ◌∙◌, arith, eq_iff, String_eq,
  Bool_eq,
}
use flowkey.Base.Assoc.{lookup, lookup-insert}
use flowkey.Base.Result.{Result, ok, err}
use flowkey.Core.Daemon.{
  DaemonRuntime, authenticated_session, connected_idle, controlled_by, contains_key, Role, Sessions,
  is_authenticated, mark_authenticated, mark_controlled_by, toggle_controller,
}
use flowkey.Core.Daemon.History.{contains-disconnects}
use flowkey.Net.Sender.Channel.{SendChannel, switch_control}
use flowkey.Net.Sender.State.{Sender, SendError, new_sender}
use flowkey.Net.Sender.{send_control_command}
use flowkey.Process.Notes.{push_runtime_note}
use flowkey.Process.State.{Daemon, publish_status_snapshot}
use flowkey.Process.Sessions.{
  authenticate, remove_sender, disconnect, start_sender, resumed_role, resume_control,
  setup_session, on_remote_switch,
}

-- The runtime that takes up its control again is idle until then, and the other sessions stay.
resumed :
    (peer other : String) (r : DaemonRuntime)
    → other ≢ peer
    → resumed_role (mark_authenticated peer r).1 ≡ some Role.controlling
    → ((mark_authenticated peer r).0.state ≡ connected_idle)
      × (lookup other (mark_authenticated peer r).0.sessions ≡ lookup other r.sessions)
unfolding mark_authenticated
resumed peer other r n role =
    ground
      (arith, lookup-insert peer other (authenticated_session peer) r.sessions, eq_iff peer other)

retaken :
    {C : Type 0} (d : Daemon C) (result : Sender C × Result SendError (Unit {0})) (other : String)
    → d.runtime.state ≡ controlled_by other
    → result.1 ≡ ok tt
    → ((resume_control d result).0.runtime.state ≡ connected_idle)
      × ((resume_control d result).0.suppression_state ≡ true)
unfolding toggle_controller
retaken d (s, ok _) other h done = ground arith
retaken d (s, err e) other h done = cc

module _ {C : Type 0} (sort : List String → List String) (ch : SendChannel C) where
  -- When a peer comes back while the end of its old session is between its two locks (the old sender
  -- is out of the registry, the old session still in the runtime), the new session's sender stays
  -- registered, but the runtime has no session of the peer.
  pub late_end_strands_sender :
      (first_key : Sessions → Option String) (peer : String) (channel : C) (window : ℕ)
      (request backend : String) (note : Option String) (d : Daemon C)
      → peer ≢ ""
      → let back =
          setup_session sort ch peer channel window request backend note (remove_sender peer d) in
        let q = disconnect first_key peer back in
        (is_some (lookup peer q.session_senders) ≡ true)
        × (contains_key peer q.runtime.sessions ≡ false)
  unfolding setup_session publish_status_snapshot push_runtime_note
  late_end_strands_sender first_key peer channel window request backend note d n =
      let (started, sender) =
        start_sender ch (authenticate peer (remove_sender peer d)).1 request
          (authenticate peer (remove_sender peer d)).0 (new_sender channel window) in
      (
        ap is_some (lookup-insert peer peer sender started.session_senders)
            ∙ ground (arith, eq_iff peer peer),
        ground (
          arith,
          contains-disconnects first_key peer peer
              (setup_session sort ch peer channel window request backend note
                (remove_sender peer d)).runtime,
          eq_iff peer "",
          eq_iff peer peer,
        ),
      )

  remote_takes :
      (other : String) (d : Daemon C)
      → other ≢ ""
      → d.runtime.state ≡ connected_idle
      → is_authenticated (lookup other d.runtime.sessions) ≡ true
      → (on_remote_switch sort true other d).runtime.state ≡ controlled_by other
  unfolding on_remote_switch publish_status_snapshot mark_controlled_by
  remote_takes other d n idle known = ground (arith, eq_iff other "")

  -- When a peer comes back whose control the daemon takes up again, and another peer takes control of
  -- this machine between the authentication and the step that takes it up, that step ends the other
  -- peer's control: the daemon is idle, and local input is suppressed.
  pub late_resume_strands :
      (peer other request : String) (channel : C) (window : ℕ) (d : Daemon C)
      → other ≢ ""
      → other ≢ peer
      → is_authenticated (lookup other d.runtime.sessions) ≡ true
      → (authenticate peer d).1 ≡ some Role.controlling
      → (send_control_command ch (switch_control request) (new_sender channel window)).1 ≡ ok tt
      → let taken = on_remote_switch sort true other (authenticate peer d).0 in
        let q =
          (start_sender ch (authenticate peer d).1 request taken (new_sender channel window)).0 in
        (taken.runtime.state ≡ controlled_by other)
        × (q.runtime.state ≡ connected_idle)
        × (q.suppression_state ≡ true)
  late_resume_strands peer other request channel window d n other_peer known role sent =
      let (idle, same) = resumed peer other d.runtime other_peer role in
      let taken = on_remote_switch sort true other (authenticate peer d).0 in
      let there =
        remote_takes other (authenticate peer d).0 n idle (ap is_authenticated same ∙ known) in
      let back =
        retaken taken (send_control_command ch (switch_control request) (new_sender channel window))
          other there sent in
      rw role (there, back.0, back.1)
