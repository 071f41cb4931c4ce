-- ===== src/Net/Sender/Closed.antt =====
-- Histories of a sender, and that a closed channel stays closed.
use flowkey.Base.{ℕ, Bool, true, ◌≡◌, refl, ap, ◌∙◌, List, [], ◌∷◌, arith}
use flowkey.Base.Result.{err}
use flowkey.Input.Event.{InputEvent, mouse_move, mouse_wheel}
use flowkey.Net.Sender.Channel.{SessionCommand, SendChannel}
use flowkey.Net.Sender.State.{Sender, closed}
use flowkey.Net.Sender.{
  flush_move, flush_scroll, queue_mouse_move, queue_scroll, send_immediate_input, send_input,
  send_control_command,
}
use flowkey.Net.Sender.Worker.{clone_sender, drop_sender, drop_receiver, worker_pass}

-- What happens to the sending end of a session.
pub data Op : Type 0 where
  sends : InputEvent → ℕ → Op
  controls : SessionCommand → Op
  passes : Bool → ℕ → ℕ → Op
  clones drops hangs_up : Op

module _ {C : Type 0} (ch : SendChannel C) where
  unfoldable pub step : Op → Sender C → Sender C
  step (sends e now) s = (send_input ch e now s).0
  step (controls m) s = (send_control_command ch m s).0
  step (passes slept woken now) s = (worker_pass ch slept woken now s).0
  step clones s = clone_sender s
  step drops s = drop_sender s
  step hangs_up s = drop_receiver s

  unfoldable pub run : List Op → Sender C → Sender C
  unfolding step
  run [] s = s
  run (o ∷ os) s = run os (step o s)

  flush_move-open : (s : Sender C) → (flush_move ch s).0.channel_closed ≡ s.channel_closed
  unfolding flush_move
  flush_move-open s = ground arith

  flush_scroll-open : (s : Sender C) → (flush_scroll ch s).0.channel_closed ≡ s.channel_closed
  unfolding flush_scroll
  flush_scroll-open s = ground arith

  closed_input :
      (e : InputEvent) (now : ℕ) (s : Sender C)
      → s.channel_closed ≡ true
      → send_input ch e now s ≡ (s, err closed)
  unfolding send_input
  closed_input (mouse_move dx dy m t) now s h = rw h refl
  closed_input (mouse_wheel dx dy m t) now s h = rw h refl
  closed_input _ now s h = rw h refl

  closed_control :
      (m : SessionCommand) (s : Sender C)
      → s.channel_closed ≡ true
      → send_control_command ch m s ≡ (s, err closed)
  unfolding send_control_command
  closed_control m s h = rw h refl

  closed_pass :
      (slept : Bool) (woken now : ℕ) (s : Sender C)
      → s.channel_closed ≡ true
      → (worker_pass ch slept woken now s).0.channel_closed ≡ true
  unfolding worker_pass
  closed_pass slept woken now s h =
      ground (arith, flush_move-open s, flush_scroll-open s, flush_scroll-open (flush_move ch s).0)

  closed_step : (o : Op) (s : Sender C) → s.channel_closed ≡ true → (step o s).channel_closed ≡ true
  unfolding step
  closed_step (sends e now) s h = ap (λ r. r.0.channel_closed) (closed_input e now s h) ∙ h
  closed_step (controls m) s h = ap (λ r. r.0.channel_closed) (closed_control m s h) ∙ h
  closed_step (passes slept woken now) s h = closed_pass slept woken now s h
  closed_step clones s h = unfold clone_sender in h
  closed_step drops s h = unfold drop_sender in h
  closed_step hangs_up s h = unfold drop_receiver in refl

  pub closed_run :
      (os : List Op) (s : Sender C) → s.channel_closed ≡ true → (run os s).channel_closed ≡ true
  unfolding run
  closed_run [] s h = h
  closed_run (o ∷ os) s h = closed_run os (step o s) (closed_step o s h)

  failed_input :
      (e : InputEvent) (now : ℕ) (s : Sender C)
      → (send_input ch e now s).1 ≡ err closed
      → (send_input ch e now s).0.channel_closed ≡ true
  unfolding send_input queue_mouse_move queue_scroll send_immediate_input
  failed_input (mouse_move dx dy m t) now s h = ground arith
  failed_input (mouse_wheel dx dy m t) now s h = ground arith
  failed_input _ now s h = ground arith

  failed_control :
      (m : SessionCommand) (s : Sender C)
      → (send_control_command ch m s).1 ≡ err closed
      → (send_control_command ch m s).0.channel_closed ≡ true
  unfolding send_control_command
  failed_control m s h = ground arith

  -- The operation is the sending of an input or of a command, and it fails.
  abbrev pub Fails : Op → Sender C → Type 0
  Fails (sends e now) s = (send_input ch e now s).1 ≡ err closed
  Fails (controls m) s = (send_control_command ch m s).1 ≡ err closed
  Fails _ s = ⊥

  Fails-closed : (o : Op) (s : Sender C) → Fails o s → (step o s).channel_closed ≡ true
  unfolding step
  Fails-closed (sends e now) s h = failed_input e now s h
  Fails-closed (controls m) s h = failed_control m s h
  Fails-closed _ s h = absurd h

  -- A failure is final. Once the sending of an input or of a control command has failed, whatever
  -- happens to the sending end after that, every later input and every later control command fails
  -- too and changes nothing.
  pub failure_final :
      (o : Op) (s : Sender C) (os : List Op) (e : InputEvent) (now : ℕ) (m : SessionCommand)
      → Fails o s
      → let q = run os (step o s) in
        (send_input ch e now q ≡ (q, err closed)) × (send_control_command ch m q ≡ (q, err closed))
  failure_final o s os e now m h =
      let shut = closed_run os (step o s) (Fails-closed o s h) in
      (closed_input e now (run os (step o s)) shut, closed_control m (run os (step o s)) shut)
