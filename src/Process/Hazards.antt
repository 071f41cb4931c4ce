-- ===== src/Process/Hazards.antt =====
-- What the sessions of other peers do to a daemon that controls one.
use flowkey.Base.{
  ℕ, String, true, false, Option, none, some, List, ◌≡◌, arith, eq_iff, String_eq, Bool_eq,
}
use flowkey.Base.Assoc.{lookup, lookup-insert}
use flowkey.Core.Daemon.{
  connected_idle, controlling, contains_key, Sessions, mark_authenticated, mark_disconnected,
}
use flowkey.Core.Daemon.Invariant.{Inv, lookup_of_empty}
use flowkey.Core.Recovery.{HeldKeyTracker}
use flowkey.Input.Sink.{InputEventSink}
use flowkey.Net.Sender.Channel.{SendChannel}
use flowkey.Net.Sender.State.{new_sender}
use flowkey.Process.Notes.{push_runtime_note}
use flowkey.Process.State.{Daemon, publish_status_snapshot}
use flowkey.Process.Sessions.{setup_session, cleanup_session}
use flowkey.Core.Daemon.History.{contains-disconnects}
use flowkey.Base.Assoc.{remove, lookup-remove}
use flowkey.Base.{◌≢◌}

module _ {C : Type 0} (sort : List String → List String) (ch : SendChannel C) where
  -- When a session of a new peer begins while another peer is controlled with local input
  -- suppressed, the daemon is idle afterwards and local input still suppressed. The peer that was
  -- controlled is still the active one, and its sender is told nothing.
  pub newcomer_strands :
      (peer controlled : String) (channel : C) (window : ℕ) (request backend : String)
      (note : Option String) (d : Daemon C)
      → d.runtime.state ≡ controlling controlled
      → d.runtime.active_peer_id ≡ some controlled
      → d.suppression_state ≡ true
      → peer ≢ ""
      → peer ≢ controlled
      → contains_key peer d.runtime.sessions ≡ false
      → let q = setup_session sort ch peer channel window request backend note d in
        (q.runtime.state ≡ connected_idle)
        × (q.runtime.active_peer_id ≡ some controlled)
        × (q.suppression_state ≡ true)
        × (lookup controlled q.session_senders ≡ lookup controlled d.session_senders)
  unfolding setup_session publish_status_snapshot push_runtime_note mark_authenticated
  newcomer_strands peer controlled channel window request backend none d h active flag n other c =
      ground (
        arith,
        eq_iff peer "",
        eq_iff peer controlled,
        lookup-insert peer controlled (new_sender channel window) d.session_senders,
      )
  newcomer_strands peer controlled channel window request backend (some note) d h active flag n
        other c =
      ground (
        arith,
        eq_iff peer "",
        eq_iff peer controlled,
        lookup-insert peer controlled (new_sender channel window) d.session_senders,
      )

module _ {C S : Type 0} (sort : List String → List String) (first_key : Sessions → Option String)
    (sink : InputEventSink S) (held : HeldKeyTracker) (s : S) (d : Daemon C) where
  -- When the session of another peer ends while a peer is controlled, the daemon still controls that
  -- peer, but local input is no longer suppressed, so that it acts on both machines.
  pub other_end_unsuppresses :
      (peer controlled : String)
      → Inv d.runtime
      → d.runtime.state ≡ controlling controlled
      → peer ≢ controlled
      → let q = (cleanup_session sort first_key sink peer held s d).0 in
        (q.runtime.state ≡ controlling controlled) × (q.suppression_state ≡ false)
  unfolding cleanup_session publish_status_snapshot mark_disconnected
  other_end_unsuppresses peer controlled v h n = ground (
    arith,
    h,
    v.fits,
    eq_iff peer controlled,
    eq_iff controlled peer,
    lookup-remove peer controlled d.runtime.sessions,
    lookup_of_empty controlled (remove peer d.runtime.sessions),
  )

  -- The end of one session of a peer takes away the peer's session and its sender, also those of
  -- another session that began meanwhile.
  pub end_takes_all :
      (peer : String)
      → peer ≢ ""
      → let q = (cleanup_session sort first_key sink peer held s d).0 in
        (contains_key peer q.runtime.sessions ≡ false) × (lookup peer q.session_senders ≡ none)
  unfolding cleanup_session publish_status_snapshot
  end_takes_all peer n = ground (
    arith,
    contains-disconnects first_key peer peer d.runtime,
    lookup-remove peer peer d.session_senders,
    eq_iff peer "",
    eq_iff peer peer,
  )
