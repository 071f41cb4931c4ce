-- ===== src/Net/Session/Held.antt =====
-- What the loop of a session holds down for the remote peer.
use flowkey.Base.{◌≡◌, refl, ap, String, Bool, true, some, List, [], ◌∷◌, ◌++◌}
use flowkey.Base.Result.{ok}
use flowkey.Input.Event.{InputEvent}
use flowkey.Input.Sink.{InputEventSink}
use flowkey.Core.Recovery.{no_held}
use flowkey.Core.Recovery.Held.{observe_all}
use flowkey.Core.Recovery.Release.{forced_events, feed, release_all-feed}
use flowkey.Net.Message.{Message, switch_release, input_event}
use flowkey.Net.Sender.Channel.{SessionCommand}
use flowkey.Net.Session.{
  SessionState, Turn, commands, reads, turn, release_held, on_message, remote_release,
}
use flowkey.Net.Session.Written.{turn_live}

-- The events that came after the last release, `before` being those of earlier turns. A command to
-- release everything counts as long as the commands last.
abbrev pub after_turn : Bool → Turn → List InputEvent → List InputEvent
after_turn live (reads (input_event _ e)) before = before ++ e ∷ []
after_turn live (reads (switch_release _)) before = []
after_turn true (commands (some SessionCommand.release_all)) before = []
after_turn live _ before = before

unfoldable pub since_release : Bool → List Turn → List InputEvent → List InputEvent
since_release live [] before = before
since_release live (t ∷ ts) before = since_release (turn_live live t) ts (after_turn live t before)

module _ {S : Type 0} (sink : InputEventSink S) where
  -- The forced release and the sink's own leave nothing held.
  release_held-feed :
      (s : SessionState S)
      → ((release_held sink s).held_keys ≡ no_held)
        × ((release_held sink s).sink
            ≡ (sink.release_all (feed sink (forced_events s.held_keys) s.sink)).0)
        × ((release_held sink s).outbound_open ≡ s.outbound_open)
  unfolding release_held
  release_held-feed s = (
    ap (λ o. o.0) (release_all-feed sink s.held_keys s.sink),
    ap (λ o. (sink.release_all o.1).0) (release_all-feed sink s.held_keys s.sink),
    refl,
  )

module _ {S : Type 0} (sink : InputEventSink S) (local_node_id peer_id : String) where
  -- After a remote release the sink was given the forced release of everything that was held, and
  -- then its own; nothing is held, and the daemon is told of the release by the peer of the session.
  pub remote_release_lifts :
      (request : String) (s : SessionState S)
      → let q = (turn sink local_node_id peer_id (reads (switch_release request)) s).0 in
        (q.held_keys ≡ no_held)
        × (q.sink ≡ (sink.release_all (feed sink (forced_events s.held_keys) s.sink)).0)
        × (q.notices ≡ s.notices ++ remote_release peer_id request ∷ [])
  unfolding turn on_message
  remote_release_lifts request s =
      let (held, lifted, same) = release_held-feed sink s in (held, lifted, refl)

module _ {S : Type 0} (sink : InputEventSink S) (local_node_id peer_id : String)
    (takes : (e : InputEvent) (q : S) → (sink.handle e q).1 ≡ ok tt) where
  -- The tracker holds what the events left, and the commands last or not.
  abbrev Holds : List InputEvent → Bool → SessionState S → Type 0
  Holds es live s = (s.held_keys ≡ observe_all es no_held) × (s.outbound_open ≡ live)
