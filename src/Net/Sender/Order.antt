-- ===== src/Net/Sender/Order.antt =====
-- What is pending, and what a control command does to it.
use flowkey.Base.{
  ℕ, Bool, true, false, ◌≡◌, ◌⊎◌, inl, refl, List, [], ◌∷◌, ◌++◌, Option, arith, none, some,
}
use flowkey.Base.Result.{ok}
use flowkey.Input.Event.{InputEvent, mouse_move, mouse_wheel}
use flowkey.Net.Sender.Channel.{SessionCommand, input, SendChannel}
use flowkey.Net.Sender.State.{
  Sender, PendingMouseMove, PendingScroll, move_event, scroll_event, new_sender,
}
use flowkey.Net.Sender.{
  flush_move, flush_scroll, queue_mouse_move, queue_scroll, send_immediate_input, send_input,
  send_control_command,
}
use flowkey.Net.Sender.Worker.{clone_sender, drop_sender, drop_receiver, worker_pass}
use flowkey.Net.Sender.Closed.{Op, sends, controls, passes, clones, drops, hangs_up, step, run}

-- A mouse move and a scroll are never pending together.
abbrev pub OnePending : {C : Type 0} → Sender C → Type 0
OnePending s = (s.pending_move ≡ none) ⊎ (s.pending_scroll ≡ none)

abbrev pub moves : Option PendingMouseMove → List SessionCommand
moves none = []
moves (some p) = input (move_event p) ∷ []

abbrev pub scrolls : Option PendingScroll → List SessionCommand
scrolls none = []
scrolls (some p) = input (scroll_event p) ∷ []

-- Neither a move nor a scroll.
abbrev pub is_immediate : InputEvent → Bool
is_immediate (mouse_move _ _ _ _) = false
is_immediate (mouse_wheel _ _ _ _) = false
is_immediate _ = true

module _ {C : Type 0} (ch : SendChannel C) where
  flush_move-fields :
      (s : Sender C)
      → ((flush_move ch s).0.pending_move ≡ none)
        × ((flush_move ch s).0.pending_scroll ≡ s.pending_scroll)
  unfolding flush_move
  flush_move-fields s = ground arith

  flush_scroll-fields :
      (s : Sender C)
      → ((flush_scroll ch s).0.pending_scroll ≡ none)
        × ((flush_scroll ch s).0.pending_move ≡ s.pending_move)
  unfolding flush_scroll
  flush_scroll-fields s = ground arith

  send_input-OnePending :
      (e : InputEvent) (now : ℕ) (s : Sender C)
      → OnePending s
      → OnePending (send_input ch e now s).0
  unfolding send_input queue_mouse_move queue_scroll send_immediate_input
  send_input-OnePending (mouse_move dx dy m t) now s h =
      ground (arith, flush_scroll-fields s, flush_move-fields (flush_scroll ch s).0)
  send_input-OnePending (mouse_wheel dx dy m t) now s h =
      ground (arith, flush_move-fields s, flush_scroll-fields (flush_move ch s).0)
  send_input-OnePending _ now s h =
      ground (arith, flush_move-fields s, flush_scroll-fields (flush_move ch s).0)

  step-OnePending : (o : Op) (s : Sender C) → OnePending s → OnePending (step ch o s)
  unfolding step
  step-OnePending (sends e now) s h = send_input-OnePending e now s h
  step-OnePending (controls m) s h = unfold send_control_command in ground arith
  step-OnePending (passes slept woken now) s h =
      unfold worker_pass in
      ground
        (arith, flush_move-fields s, flush_scroll-fields s, flush_scroll-fields (flush_move ch s).0)
  step-OnePending clones s h = unfold clone_sender in h
  step-OnePending drops s h = unfold drop_sender in h
  step-OnePending hangs_up s h = unfold drop_receiver in h

  run_from-OnePending : (os : List Op) (s : Sender C) → OnePending s → OnePending (run ch os s)
  unfolding run
  run_from-OnePending [] s h = h
  run_from-OnePending (o ∷ os) s h = run_from-OnePending os (step ch o s) (step-OnePending o s h)

  -- In any history of a new sender a mouse move and a scroll are never pending together.
  pub run-OnePending :
      (c : C) (window : ℕ) (os : List Op) → OnePending (run ch os (new_sender c window))
  run-OnePending c window os =
      run_from-OnePending os (new_sender c window) (unfold new_sender in inl refl)

  -- A control command that is sent leaves nothing pending and is the one thing that the channel
  -- takes: motion from before a switch or a release of control never follows it.
  pub control_discards_pending :
      (m : SessionCommand) (s : Sender C)
      → (send_control_command ch m s).1 ≡ ok tt
      → let q = (send_control_command ch m s).0 in
        (q.pending_move ≡ none)
        × (q.pending_scroll ≡ none)
        × (ch.accepted q.channel ≡ ch.accepted s.channel ++ m ∷ [])
  unfolding send_control_command
  control_discards_pending m s h = ground (arith, ch.send-sent m s.channel)
