-- ===== src/Net/Session/Timers.antt =====
-- The timers of the loop in `run_authenticated_session` (crates/flowkey-net's connection.rs), and
-- heartbeat.rs beside it. The executor polls the loop's `select!` when it likes; each poll finds the
-- clock (in seconds), what is ready, and how long the branch that it completes then takes.
use flowkey.Base.{ℕ, ◌+◌, String, Bool, true, Option, none, some, List, [], ◌∷◌, leb, if◌then◌else◌}
use flowkey.Base.Result.{ok, err}
use flowkey.Input.Sink.{InputEventSink}
use flowkey.Net.Message.{Message}
use flowkey.Net.Sender.Channel.{SessionCommand}
use flowkey.Net.Session.{
  SessionState, Step, Turn, ticks, commands, reads, read_ends, times_out, turn,
}

pub record HeartbeatConfig : Type 0 where
  pub interval_secs : ℕ
  pub timeout_secs : ℕ

abbrev pub default_heartbeat : HeartbeatConfig
default_heartbeat = record { interval_secs = 2; timeout_secs = 6 }

-- What a poll finds: the next command, or the end of the commands; the next message, or the end of
-- the stream; nothing where it is not ready.
pub record Poll : Type 0 where
  pub at : ℕ
  pub command : Option (Option SessionCommand)
  pub message : Option (Option Message)
  pub done : ℕ

-- When the ticker is due, and when the limit of the read passes that waits now.
pub record Timers : Type 0 where
  pub ticker_due : ℕ
  pub read_limit : ℕ

-- A branch of the `select!` that is not ready leaves the poll to the next one.
abbrev read_branch : ℕ → ℕ → Option (Option Message) → Option Turn
read_branch limit now (some (some m)) = some (reads m)
read_branch limit now (some none) = some read_ends
read_branch limit now none = if leb limit now then some times_out else none

abbrev command_branch : Bool → Option (Option SessionCommand) → Option Turn → Option Turn
command_branch true (some c) others = some (commands c)
command_branch _ _ others = others

-- The `select!`, which is biased: the ticker first, then the commands, then the read under its
-- limit. `tokio::time::timeout` polls what it limits before the limit.
unfoldable pub select : Bool → Timers → Poll → Option Turn
select outbound_open t p =
    let others = command_branch outbound_open p.command (read_branch t.read_limit p.at p.message) in
    if leb t.ticker_due p.at then some ticks else others

-- A tick makes the ticker due one period after it was due.
abbrev pub due_after : HeartbeatConfig → Turn → ℕ → ℕ
due_after config ticks due = due + config.interval_secs
due_after config _ due = due

-- Each iteration of the loop makes the read and its limit anew.
unfoldable pub rearm : HeartbeatConfig → Turn → Poll → Timers → Timers
rearm config completed p t = record {
  ticker_due = due_after config completed t.ticker_due;
  read_limit = p.done + config.timeout_secs;
}

-- The ticker's first tick is due at once.
unfoldable pub start_timers : HeartbeatConfig → ℕ → Timers
start_timers config now = record { ticker_due = now; read_limit = now + config.timeout_secs }

module _ {S : Type 0} (sink : InputEventSink S) (local_node_id peer_id : String)
    (config : HeartbeatConfig) where
  -- What a poll completes is done, and the loop goes on unless it failed.
  abbrev pub go_on : (Timers → SessionState S → Step S) → Timers → Step S → Step S
  go_on rest t (s, ok _) = rest t s
  go_on rest t (s, err e) = (s, err e)

  abbrev pub completed :
      (Timers → SessionState S → Step S) → Poll → Timers → SessionState S → Option Turn → Step S
  completed rest p t s none = rest t s
  completed rest p t s (some c) =
      go_on rest (rearm config c p t) (turn sink local_node_id peer_id c s)

  -- The loop over the polls.
  unfoldable pub run_polls : List Poll → Timers → SessionState S → Step S
  unfolding turn select rearm
  run_polls [] t s = (s, ok tt)
  run_polls (p ∷ ps) t s = completed (run_polls ps) p t s (select s.outbound_open t p)
