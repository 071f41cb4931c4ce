-- ===== src/Net/Session.antt =====
-- crates/flowkey-net/src/connection.rs: the loop of an authenticated session. One turn is what its
-- `select!` completes. The connection is the number of writes that will still succeed and what was
-- written, the callback what it was told, in order. Metrics and logs are left out.
pub mod Written
pub mod Held
pub mod Timers
pub mod Heartbeat
use flowkey.Base.{
  ℕ, zero, suc, ◌+◌, ◌%◌, ◌^◌, String, Bool, true, false, Option, none, some, List, [], ◌∷◌, ◌++◌,
}
use flowkey.Base.Result.{Result, ok, err}
use flowkey.Input.Event.{InputEvent}
use flowkey.Input.Sink.{InputEventSink}
use flowkey.Core.Recovery.{HeldKeyTracker, observe, release_all}
use flowkey.Net.Message.{Message, switch_request, switch_release, input_event, heartbeat, error}
use flowkey.Net.Sender.Channel.{SessionCommand, input, switch_control, release_control}

pub data SessionError : Type 0 where
  write_failed read_failed heartbeat_timeout : SessionError
  peer_error : ℕ → String → SessionError

-- What `SessionStateCallback` is told: a peer and a request.
pub data Notice : Type 0 where
  remote_switch remote_release : String → String → Notice

pub record SessionState (S : Type 0) : Type 0 where
  pub sequence : ℕ
  pub outbound_open : Bool
  pub held_keys : HeldKeyTracker
  pub sink : S
  pub writable : ℕ
  pub sent : List Message
  pub notices : List Notice

-- What a turn of the loop waited for: the heartbeat's ticker, the next command or the end of the
-- commands, a message or the end of the stream, or the time limit of a read.
pub data Turn : Type 0 where
  ticks : Turn
  commands : Option SessionCommand → Turn
  reads : Message → Turn
  read_ends times_out : Turn

-- The state after a turn, and the error that ends the session.
abbrev pub Step : Type 0 → Type 0
Step S = SessionState S × Result SessionError (Unit {0})

-- `sequence.wrapping_add(1)` of a u64.
abbrev pub next_sequence : ℕ → ℕ
next_sequence n = (n + 1) % 2 ^ 64

module _ {S : Type 0} where
  write_to : ℕ → Message → SessionState S → Step S
  write_to zero m s = (s, err write_failed)
  write_to (suc n) m s = (record s { writable = n; sent = s.sent ++ m ∷ [] }, ok tt)

  unfoldable pub write : Message → SessionState S → Step S
  unfolding write_to
  write m s = write_to s.writable m s

module _ {S : Type 0} (sink : InputEventSink S) where
  -- An event that the sink refuses is not observed.
  observe_taken : InputEvent → SessionState S → S × Result String (Unit {0}) → SessionState S
  observe_taken e s (q, ok _) = record s { sink = q; held_keys = observe e s.held_keys }
  observe_taken e s (q, err _) = record s { sink = q }

  unfoldable pub route_input_event : InputEvent → SessionState S → SessionState S
  unfolding observe_taken
  route_input_event e s = observe_taken e s (sink.handle e s.sink)

  -- The forced release of what is held, and the sink's own.
  unfoldable pub release_held : SessionState S → SessionState S
  release_held s =
      let (held, q, recovery) = release_all sink s.held_keys s.sink in
      record s { held_keys = held; sink = (sink.release_all q).0 }

module _ {S : Type 0} (sink : InputEventSink S) (local_node_id peer_id : String) where
  on_command : Option SessionCommand → SessionState S → Step S
  unfolding write release_held
  on_command (some (input e)) s =
      write (input_event (next_sequence s.sequence) e)
        (record s { sequence = next_sequence s.sequence })
  on_command (some (switch_control request)) s = write (switch_request local_node_id request) s
  on_command (some (release_control request)) s = write (switch_release request) s
  on_command (some SessionCommand.release_all) s = (release_held sink s, ok tt)
  on_command none s = (record s { outbound_open = false }, ok tt)

  on_message : Message → SessionState S → Step S
  unfolding route_input_event release_held
  on_message (input_event _ e) s = (route_input_event sink e s, ok tt)
  on_message (switch_request remote request) s =
      (record s { notices = s.notices ++ remote_switch remote request ∷ [] }, ok tt)
  on_message (switch_release request) s =
      let released = release_held sink s in
      (record released { notices = s.notices ++ remote_release peer_id request ∷ [] }, ok tt)
  on_message (error code text) s = (s, err (peer_error code text))
  on_message _ s = (s, ok tt)

  -- Once the commands have ended their branch is not taken again.
  if_outbound : Bool → Option SessionCommand → SessionState S → Step S
  unfolding on_command
  if_outbound true command s = on_command command s
  if_outbound false command s = (s, ok tt)

  unfoldable pub turn : Turn → SessionState S → Step S
  unfolding if_outbound on_message write
  turn ticks s = write heartbeat s
  turn (commands command) s = if_outbound s.outbound_open command s
  turn (reads m) s = on_message m s
  turn read_ends s = (s, err read_failed)
  turn times_out s = (s, err heartbeat_timeout)

  -- The loop: the first error ends it.
  abbrev go_on : (SessionState S → Step S) → Step S → Step S
  go_on rest (s, ok _) = rest s
  go_on rest (s, err e) = (s, err e)

  unfoldable pub run : List Turn → SessionState S → Step S
  unfolding turn
  run [] s = (s, ok tt)
  run (t ∷ ts) s = go_on (run ts) (turn t s)
