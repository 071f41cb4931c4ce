-- ===== src/Net/Session/Heartbeat.antt =====
-- When the loop of a session gives up on a silent peer.
use flowkey.Base.{
  ap, sym, ◌∙◌, Option-cases, inl, inr, ◌≡◌, refl, ℕ, ◌+◌, ◌≤◌, ◌≢◌, String, List, [], ◌∷◌, arith,
  Option, none, some, Bool, true, false,
}
use flowkey.Base.Result.{ok, err}
use flowkey.Input.Sink.{InputEventSink}
use flowkey.Net.Message.{Message, switch_request, switch_release, input_event, heartbeat, error}
use flowkey.Net.Sender.Channel.{SessionCommand, input, switch_control, release_control}
use flowkey.Net.Session.{
  SessionState, Step, heartbeat_timeout, Turn, ticks, commands, reads, read_ends, times_out, turn,
  write, on_command, on_message, if_outbound, next_sequence,
}
use flowkey.Net.Session.Timers.{
  HeartbeatConfig, Poll, Timers, select, rearm, start_timers, go_on, run_polls,
}

-- The clock of the polls does not run backwards.
abbrev pub Monotone : ℕ → List Poll → Type 0
Monotone now [] = Unit {0}
Monotone now (p ∷ ps) = (now ≤ p.at) × (p.at ≤ p.done) × Monotone p.done ps

-- From the instant that the last branch was done, the ticker is due within its period, and the
-- limit passes after `timeout_secs`.
abbrev Armed : HeartbeatConfig → ℕ → Timers → Type 0
Armed config now t =
    (t.ticker_due ≤ now + config.interval_secs) × (t.read_limit ≡ now + config.timeout_secs)

Monotone-weaken :
    (now before : ℕ) (ps : List Poll) → before ≤ now → Monotone now ps → Monotone before ps
Monotone-weaken now before [] b m = tt
Monotone-weaken now before (p ∷ ps) b (later, done, rest) = (omega arith, done, rest)

module _ {S : Type 0} (sink : InputEventSink S) (local_node_id peer_id : String) where
  write-no_timeout : (m : Message) (s : SessionState S) → (write m s).1 ≢ err heartbeat_timeout
  unfolding write
  write-no_timeout m s h = ground arith

  no_timeout_command :
      (live : Bool) (c : Option SessionCommand) (s : SessionState S)
      → (if_outbound sink local_node_id peer_id live c s).1 ≢ err heartbeat_timeout
  unfolding if_outbound on_command
  no_timeout_command true (some (input e)) s h =
      write-no_timeout (input_event (next_sequence s.sequence) e)
        (record s { sequence = next_sequence s.sequence }) h
  no_timeout_command true (some (switch_control r)) s h =
      write-no_timeout (switch_request local_node_id r) s h
  no_timeout_command true (some (release_control r)) s h = write-no_timeout (switch_release r) s h
  no_timeout_command true (some SessionCommand.release_all) s h = cc
  no_timeout_command true none s h = cc
  no_timeout_command false c s h = cc

  no_timeout_message :
      (m : Message) (s : SessionState S)
      → (on_message sink local_node_id peer_id m s).1 ≢ err heartbeat_timeout
  unfolding on_message
  no_timeout_message (error code text) s h = cc
  no_timeout_message _ s h = cc

  turn-no_timeout :
      (t : Turn) (s : SessionState S)
      → t ≢ times_out
      → (turn sink local_node_id peer_id t s).1 ≢ err heartbeat_timeout
  unfolding turn
  turn-no_timeout ticks s d h = write-no_timeout heartbeat s h
  turn-no_timeout (commands c) s d h = no_timeout_command s.outbound_open c s h
  turn-no_timeout (reads m) s d h = no_timeout_message m s h
  turn-no_timeout read_ends s d h = ground arith
  turn-no_timeout times_out s d h = absurd (d refl)

  -- While the ticker's period is no longer than the limit, the limit never comes first.
  select-no_timeout :
      (config : HeartbeatConfig) (open_ : Bool) (since : ℕ) (t : Timers) (p : Poll)
      → config.interval_secs ≤ config.timeout_secs
      → Armed config since t
      → since ≤ p.at
      → select open_ t p ≢ some times_out
  unfolding select
  select-no_timeout config open_ since t p i a later h = ground arith

  rearm-Armed :
      (config : HeartbeatConfig) (open_ : Bool) (since : ℕ) (t : Timers) (p : Poll) (c : Turn)
      → Armed config since t
      → since ≤ p.at
      → p.at ≤ p.done
      → select open_ t p ≡ some c
      → Armed config p.done (rearm config c p t)
  unfolding select rearm
  rearm-Armed config open_ since t p c a later done h = ground arith

  after_turn :
      (config : HeartbeatConfig) (rest : Timers → SessionState S → Step S) (t : Timers)
      (result : Step S)
      → result.1 ≢ err heartbeat_timeout
      → ((s : SessionState S) → (rest t s).1 ≢ err heartbeat_timeout)
      → (go_on sink local_node_id peer_id config rest t result).1 ≢ err heartbeat_timeout
  after_turn config rest t (s, ok _) h k = k s
  after_turn config rest t (s, err e) h k = h

  run_polls-no_timeout :
      (config : HeartbeatConfig) (since : ℕ) (ps : List Poll) (t : Timers) (s : SessionState S)
      → config.interval_secs ≤ config.timeout_secs
      → Armed config since t
      → Monotone since ps
      → (run_polls sink local_node_id peer_id config ps t s).1 ≢ err heartbeat_timeout
  unfolding run_polls
  run_polls-no_timeout config since [] t s i a m h = cc
  run_polls-no_timeout config since (p ∷ ps) t s i a (later, done, m) h =
      elim (Option-cases (select s.outbound_open t p)) [
        | inl e ↦
            run_polls-no_timeout config since ps t s i a
              (Monotone-weaken p.done since ps (omega arith) m) (sym (rw e refl) ∙ h)
        | inr (c, e) ↦
            after_turn config (run_polls sink local_node_id peer_id config ps) (rearm config c p t)
              (turn sink local_node_id peer_id c s)
              (turn-no_timeout c s (λ same.
                select-no_timeout config s.outbound_open since t p i a later
                  (e ∙ ap (λ d. some d) same)))
              (λ s'.
                run_polls-no_timeout config p.done ps (rearm config c p t) s' i
                  (rearm-Armed config s.outbound_open since t p c a later done e) m)
              (sym (rw e refl) ∙ h)
      ]

  -- With a heartbeat period no longer than the limit of a read, as in the default configuration,
  -- the loop never ends with the heartbeat's timeout, however long the peer is silent and whenever
  -- the executor polls it, as long as the clock does not run backwards: the loop's own ticker is
  -- due before the limit passes, and each iteration sets the limit anew.
  pub heartbeat_never_times_out :
      (config : HeartbeatConfig) (start : ℕ) (ps : List Poll) (s : SessionState S)
      → config.interval_secs ≤ config.timeout_secs
      → Monotone start ps
      → (run_polls sink local_node_id peer_id config ps (start_timers config start) s).1
        ≢ err heartbeat_timeout
  unfolding start_timers
  heartbeat_never_times_out config start ps s i m =
      run_polls-no_timeout config start ps (start_timers config start) s i (omega arith, refl) m
