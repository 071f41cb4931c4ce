-- ===== src/Net/Session/Written.antt =====
-- What the loop of a session writes.
use mathlib.Core.List.{append_assoc, append-nil}
use flowkey.Base.{
  ap₂, ℕ, ◌≡◌, refl, sym, ap, ◌∙◌, String, Bool, true, false, none, some, List, [], ◌∷◌, ◌++◌,
  arith,
}
use flowkey.Base.Result.{ok, err}
use flowkey.Input.Sink.{InputEventSink}
use flowkey.Net.Message.{Message, switch_request, switch_release, input_event, heartbeat}
use flowkey.Net.Sender.Channel.{SessionCommand, input, switch_control, release_control}
use flowkey.Net.Session.{
  SessionState, Step, Turn, ticks, commands, reads, read_ends, times_out, next_sequence, turn, run,
  go_on, write, on_message, on_command, route_input_event,
}

-- The message that a command becomes, if it becomes one.
abbrev command_message : String → ℕ → SessionCommand → List Message
command_message node n (input e) = input_event (next_sequence n) e ∷ []
command_message node n (switch_control request) = switch_request node request ∷ []
command_message node n (release_control request) = switch_release request ∷ []
command_message node n SessionCommand.release_all = []

abbrev command_sequence : ℕ → SessionCommand → ℕ
command_sequence n (input e) = next_sequence n
command_sequence n _ = n

-- The message that a turn writes, while the commands last if `live`.
abbrev turn_message : String → ℕ → Bool → Turn → List Message
turn_message node n live ticks = heartbeat ∷ []
turn_message node n true (commands (some c)) = command_message node n c
turn_message node n live _ = []

abbrev turn_sequence : ℕ → Bool → Turn → ℕ
turn_sequence n true (commands (some c)) = command_sequence n c
turn_sequence n live _ = n

abbrev pub turn_live : Bool → Turn → Bool
turn_live live (commands none) = false
turn_live live _ = live

-- What a loop that sent `n` inputs writes in these turns.
unfoldable pub written : String → ℕ → Bool → List Turn → List Message
written node n live [] = []
written node n live (t ∷ ts) =
    turn_message node n live t ++ written node (turn_sequence n live t) (turn_live live t) ts

module _ {S : Type 0} (sink : InputEventSink S) (local_node_id peer_id : String) where
  -- The parts of the state that decide what is written.
  abbrev Writes : SessionState S → List Message → ℕ → Bool → SessionState S → Type 0
  Writes s ms n live q = (q.sent ≡ s.sent ++ ms) × (q.sequence ≡ n) × (q.outbound_open ≡ live)

  write-Writes :
      (m : Message) (s : SessionState S)
      → (write m s).1 ≡ ok tt
      → Writes s (m ∷ []) s.sequence s.outbound_open (write m s).0
  unfolding write
  write-Writes m s h = ground arith

  on_message-Writes :
      (m : Message) (s : SessionState S)
      → Writes s [] s.sequence s.outbound_open (on_message sink local_node_id peer_id m s).0
  unfolding on_message
  on_message-Writes (input_event n e) s =
      unfold route_input_event in ground (arith, append-nil s.sent)
  on_message-Writes _ s = (sym (append-nil s.sent), refl, refl)

  on_command-Writes :
      (c : SessionCommand) (s : SessionState S)
      → (on_command sink local_node_id peer_id (some c) s).1 ≡ ok tt
      → Writes s
          (command_message local_node_id s.sequence c)
          (command_sequence s.sequence c)
          s.outbound_open
          (on_command sink local_node_id peer_id (some c) s).0
  unfolding on_command
  on_command-Writes (input e) s h =
      write-Writes (input_event (next_sequence s.sequence) e)
        (record s { sequence = next_sequence s.sequence }) h
  on_command-Writes (switch_control r) s h = write-Writes (switch_request local_node_id r) s h
  on_command-Writes (release_control r) s h = write-Writes (switch_release r) s h
  on_command-Writes SessionCommand.release_all s h = (sym (append-nil s.sent), refl, refl)

  on_turn-Writes :
      (t : Turn) (live : Bool) (s : SessionState S)
      → s.outbound_open ≡ live
      → (turn sink local_node_id peer_id t s).1 ≡ ok tt
      → Writes s
          (turn_message local_node_id s.sequence live t)
          (turn_sequence s.sequence live t)
          (turn_live live t)
          (turn sink local_node_id peer_id t s).0
  unfolding turn
  on_turn-Writes ticks live s e h = ground (arith, write-Writes heartbeat s h)
  on_turn-Writes (commands (some c)) true s e h = ground (arith, on_command-Writes c s)
  on_turn-Writes (commands (some c)) false s e h = ground (arith, append-nil s.sent)
  on_turn-Writes (commands none) live s e h = ground (arith, append-nil s.sent)
  on_turn-Writes (reads m) live s e h = ground (arith, on_message-Writes m s)
  on_turn-Writes read_ends live s e h = cc
  on_turn-Writes times_out live s e h = cc

  pub first_ok :
      (f : SessionState S → Step S) (o : Step S)
      → (go_on sink local_node_id peer_id f o).1 ≡ ok tt
      → (o.1 ≡ ok tt) × (go_on sink local_node_id peer_id f o ≡ f o.0)
  first_ok f (s, ok tt) h = (refl, refl)
  first_ok f (s, err e) h = cc

  -- As long as no turn fails, the loop of a session writes exactly this, in the order of the turns:
  -- a heartbeat for each tick, and for each command that came before the commands ended its message,
  -- an input under the next number after the last one (counted modulo 2 ^ 64), a switch under the
  -- name of this node, a release under its request; a local release of everything, what is read and
  -- the end of the commands write nothing.
  pub run-written :
      (ts : List Turn) (s : SessionState S)
      → (run sink local_node_id peer_id ts s).1 ≡ ok tt
      → (run sink local_node_id peer_id ts s).0.sent
        ≡ s.sent ++ written local_node_id s.sequence s.outbound_open ts
  unfolding run written
  run-written [] s h = sym (append-nil s.sent)
  run-written (t ∷ ts) s h =
      let q = (turn sink local_node_id peer_id t s).0 in
      let (fine, next) =
        first_ok (run sink local_node_id peer_id ts) (turn sink local_node_id peer_id t s) h in
      let (sent, sequence, live) = on_turn-Writes t s.outbound_open s refl fine in
      let rest = run-written ts q (ap (λ o. o.1) (sym next) ∙ h) in
      ap (λ o. o.0.sent) next
      ∙ rest
      ∙ ap (λ ms. ms ++ written local_node_id q.sequence q.outbound_open ts) sent
      ∙ append_assoc s.sent (turn_message local_node_id s.sequence s.outbound_open t)
          (written local_node_id q.sequence q.outbound_open ts)
      ∙ ap₂
          (λ n l.
            s.sent
            ++ (turn_message local_node_id s.sequence s.outbound_open t
                ++ written local_node_id n l ts))
          sequence live
