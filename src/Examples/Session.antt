-- ===== src/Examples/Session.antt =====
-- A session with a sink that takes everything.
use flowkey.Base.{ℕ, true, none, some, List, [], ◌∷◌, ◌++◌, ◌≡◌, ◌≢◌, refl, arith}
use flowkey.Base.Result.{ok, err}
use flowkey.Input.Event.{no_modifiers, left, InputEvent, key_down, mouse_button_down}
use flowkey.Input.Sink.{InputEventSink}
use flowkey.Core.Recovery.{no_held}
use flowkey.Core.Recovery.Release.{forced_events, feed}
use flowkey.Net.Message.{switch_release, input_event, heartbeat}
use flowkey.Net.Sender.Channel.{input, switch_control}
use flowkey.Net.Session.{
  SessionState, Turn, ticks, commands, reads, heartbeat_timeout, turn, run, write,
  route_input_event, remote_release,
}
use flowkey.Net.Session.Written.{written, run-written}
use flowkey.Net.Session.Held.{remote_release_lifts}
use flowkey.Net.Session.Timers.{Poll, default_heartbeat, start_timers, run_polls}
use flowkey.Net.Session.Heartbeat.{heartbeat_never_times_out}

-- A sink that keeps what it was given.
abbrev pub keeping : InputEventSink (List InputEvent)
keeping = record { handle = λ e es. (es ++ e ∷ [], ok tt); release_all = λ es. (es, ok tt) }

abbrev fresh : SessionState (List InputEvent)
fresh = record {
  sequence = 0;
  outbound_open = true;
  held_keys = no_held;
  sink = [];
  writable = 9;
  sent = [];
  notices = [];
}

abbrev turns : List Turn
turns =
    ticks
    ∷ reads (input_event 1 (key_down "KeyA" no_modifiers 5))
    ∷ commands (some (switch_control "r"))
    ∷ commands (some (input (mouse_button_down left no_modifiers 6)))
    ∷ reads heartbeat
    ∷ commands none
    ∷ []

turns_succeed : (run keeping "d" "a" turns fresh).1 ≡ ok tt
unfolding run turn write route_input_event
turns_succeed = refl

run-written_example :
    (run keeping "d" "a" turns fresh).0.sent
    ≡ fresh.sent ++ written "d" fresh.sequence fresh.outbound_open turns
run-written_example = run-written keeping "d" "a" turns fresh turns_succeed

remote_release_lifts_example :
    let s = (run keeping "d" "a" turns fresh).0 in
    let q = (turn keeping "d" "a" (reads (switch_release "r")) s).0 in
    (q.held_keys ≡ no_held)
    × (q.sink ≡ (keeping.release_all (feed keeping (forced_events s.held_keys) s.sink)).0)
    × (q.notices ≡ s.notices ++ remote_release "a" "r" ∷ [])
remote_release_lifts_example =
    remote_release_lifts keeping "d" "a" "r" (run keeping "d" "a" turns fresh).0

-- Nothing comes from the peer for eight seconds; a poll at 101 finds nothing ready.
abbrev silent_at : ℕ → Poll
silent_at now = record { at = now; command = none; message = none; done = now }

abbrev silence : List Poll
silence =
    silent_at 100
    ∷ silent_at 101
    ∷ silent_at 102
    ∷ silent_at 104
    ∷ silent_at 106
    ∷ silent_at 108
    ∷ []

heartbeat_never_times_out_example :
    (run_polls keeping "d" "a" default_heartbeat silence
      (start_timers default_heartbeat 100)
      fresh).1
    ≢ err heartbeat_timeout
heartbeat_never_times_out_example =
    heartbeat_never_times_out keeping "d" "a" default_heartbeat 100 silence fresh (omega arith)
      (ground arith)
