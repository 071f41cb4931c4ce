-- ===== src/Net/Sender/Offered.antt =====
-- What a flush and an input offer the channel, and what they leave pending.
use flowkey.Base.{
  ℕ, ◌≡◌, ◌⊎◌, inl, inr, Option-cases, Bool-cases, ◌==◌, leb, ◌&&◌, refl, List, [], ◌∷◌, ◌++◌,
  arith, none, some,
}
use flowkey.Base.Int.{ℤ, saturating_add}
use flowkey.Base.Result.{ok}
use flowkey.Input.Event.{Modifiers, Modifiers_eq, InputEvent, mouse_move, mouse_wheel}
use flowkey.Net.Sender.Channel.{SessionCommand, input, SendChannel}
use flowkey.Net.Sender.State.{Sender, PendingMouseMove, PendingScroll, move_event, scroll_event}
use flowkey.Net.Sender.{
  flush_move, flush_scroll, queue_mouse_move, queue_scroll, send_immediate_input,
}
use flowkey.Net.Sender.Order.{moves, scrolls}

module _ {C : Type 0} (ch : SendChannel C) where
  -- The channel after it was offered the commands, one after the other.
  abbrev pub offered : List SessionCommand → C → C
  offered [] c = c
  offered (m ∷ ms) c = offered ms (ch.try_send m c).0

  pub flush_move-offered :
      (s : Sender C)
      → ((flush_move ch s).0.channel ≡ offered (moves s.pending_move) s.channel)
        × ((flush_move ch s).0.pending_move ≡ none)
        × ((flush_move ch s).0.pending_scroll ≡ s.pending_scroll)
  unfolding flush_move
  flush_move-offered s = elim (Option-cases s.pending_move) [
    | inl e ↦ rw e (refl, refl, refl)
    | inr (p, e) ↦ rw e (refl, refl, refl)
  ]

  pub flush_scroll-offered :
      (s : Sender C)
      → ((flush_scroll ch s).0.channel ≡ offered (scrolls s.pending_scroll) s.channel)
        × ((flush_scroll ch s).0.pending_scroll ≡ none)
        × ((flush_scroll ch s).0.pending_move ≡ s.pending_move)
  unfolding flush_scroll
  flush_scroll-offered s = elim (Option-cases s.pending_scroll) [
    | inl e ↦ rw e (refl, refl, refl)
    | inr (p, e) ↦ rw e (refl, refl, refl)
  ]

  pub offered-append :
      (xs ys : List SessionCommand) (c : C) → offered (xs ++ ys) c ≡ offered ys (offered xs c)
  offered-append [] ys c = refl
  offered-append (x ∷ xs) ys c = offered-append xs ys (ch.try_send x c).0

  pub immediate_fields :
      (e : InputEvent) (s : Sender C)
      → (send_immediate_input ch e s).1 ≡ ok tt
      → let s1 = (flush_move ch s).0 in
        let s2 = (flush_scroll ch s1).0 in
        let q = (send_immediate_input ch e s).0 in
        (q.channel ≡ (ch.try_send (input e) s2.channel).0)
        × (q.pending_move ≡ s2.pending_move)
        × (q.pending_scroll ≡ s2.pending_scroll)
  unfolding send_immediate_input
  immediate_fields e s done = ground arith

  pub move_fields :
      (dx dy : ℤ) (m : Modifiers) (t now : ℕ) (s : Sender C)
      → s.pending_move ≡ none
      → (queue_mouse_move ch dx dy m t now s).1 ≡ ok tt
      → let q = (queue_mouse_move ch dx dy m t now s).0 in
        (q.channel ≡ (flush_scroll ch s).0.channel)
        × (moves q.pending_move ≡ input (mouse_move dx dy m t) ∷ [])
        × (q.pending_scroll ≡ (flush_scroll ch s).0.pending_scroll)
  unfolding queue_mouse_move
  move_fields dx dy m t now s none_there done = ground (arith, flush_scroll-offered s)

  -- A move finds a move pending.
  pub move_meets :
      (dx dy : ℤ) (m : Modifiers) (t now : ℕ) (p : PendingMouseMove) (s : Sender C)
      → s.pending_move ≡ some p
      → s.pending_scroll ≡ none
      → (queue_mouse_move ch dx dy m t now s).1 ≡ ok tt
      → let q = (queue_mouse_move ch dx dy m t now s).0 in
        let both = mouse_move (saturating_add p.dx dx) (saturating_add p.dy dy) p.modifiers t in
        (q.pending_scroll ≡ none)
        × (((q.channel ≡ s.channel) × (moves q.pending_move ≡ input both ∷ []))
            ⊎ ((q.channel ≡ (ch.try_send (input (move_event p)) s.channel).0)
                × (moves q.pending_move ≡ input (mouse_move dx dy m t) ∷ [])))
  unfolding queue_mouse_move flush_move flush_scroll
  move_meets dx dy m t now p s there no_scroll done =
      elim (Bool-cases (p.modifiers == m && leb now p.deadline)) [
        | inl e ↦ (ground arith, inl (ground arith, ground arith))
        | inr e ↦ (ground arith, inr (ground arith, ground arith))
      ]

  pub scroll_fields :
      (dx dy : ℤ) (m : Modifiers) (t now : ℕ) (s : Sender C)
      → s.pending_scroll ≡ none
      → (queue_scroll ch dx dy m t now s).1 ≡ ok tt
      → let q = (queue_scroll ch dx dy m t now s).0 in
        (q.channel ≡ (flush_move ch s).0.channel)
        × (scrolls q.pending_scroll ≡ input (mouse_wheel dx dy m t) ∷ [])
        × (q.pending_move ≡ (flush_move ch s).0.pending_move)
  unfolding queue_scroll
  scroll_fields dx dy m t now s none_there done = ground (arith, flush_move-offered s)

  pub scroll_meets :
      (dx dy : ℤ) (m : Modifiers) (t now : ℕ) (p : PendingScroll) (s : Sender C)
      → s.pending_scroll ≡ some p
      → s.pending_move ≡ none
      → (queue_scroll ch dx dy m t now s).1 ≡ ok tt
      → let q = (queue_scroll ch dx dy m t now s).0 in
        let both =
          mouse_wheel (saturating_add p.delta_x dx) (saturating_add p.delta_y dy) p.modifiers t in
        (q.pending_move ≡ none)
        × (((q.channel ≡ s.channel) × (scrolls q.pending_scroll ≡ input both ∷ []))
            ⊎ ((q.channel ≡ (ch.try_send (input (scroll_event p)) s.channel).0)
                × (scrolls q.pending_scroll ≡ input (mouse_wheel dx dy m t) ∷ [])))
  unfolding queue_scroll flush_move flush_scroll
  scroll_meets dx dy m t now p s there no_move done =
      elim (Bool-cases (p.modifiers == m && leb now p.deadline)) [
        | inl e ↦ (ground arith, inl (ground arith, ground arith))
        | inr e ↦ (ground arith, inr (ground arith, ground arith))
      ]
