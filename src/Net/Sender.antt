-- ===== src/Net/Sender.antt =====
-- crates/flowkey-net/src/connection.rs, up to the authentication: the sending end of a session. It
-- merges mouse moves and scrolls for a short window, sends other input at once, and drops what is
-- pending when control changes hands. A mutex is not poisoned, since nothing panics under its
-- guard. An instant is a number, and an operation takes the reading of the clock that it makes.
pub mod Channel
pub mod State
pub mod Worker
pub mod Closed
pub mod Order
pub mod Travel
pub mod Flush
pub mod Moves
pub mod Sends
pub mod Motion
pub mod Offered
pub mod Kept
use flowkey.Base.{ℕ, Bool, true, false, ◌&&◌, Option, none, some, ◌+◌, leb, ◌==◌, if◌then◌else◌}
use flowkey.Base.Int.{ℤ, saturating_add}
use flowkey.Base.Result.{Result, ok, err}
use flowkey.Input.Event.{Modifiers, Modifiers_eq, InputEvent, mouse_move, mouse_wheel}
use flowkey.Net.Sender.Channel.{SessionCommand, input, SendChannel, TrySend, sent, full, hung_up}
use flowkey.Net.Sender.State.{
  PendingMouseMove, PendingScroll, Sender, SendError, closed, mark_closed, delivered, move_event,
  scroll_event,
}

module _ {C : Type 0} (ch : SendChannel C) where
  deliver : SessionCommand → Sender C → Sender C × Bool
  deliver m s =
      let (c, result) = ch.try_send m s.channel in (record s { channel = c }, delivered result)

  take_move : Option PendingMouseMove → Sender C → Sender C × Bool
  unfolding deliver
  take_move none s = (s, true)
  take_move (some p) s = deliver (input (move_event p)) (record s { pending_move = none })

  unfoldable pub flush_move : Sender C → Sender C × Bool
  unfolding take_move
  flush_move s = take_move s.pending_move s

  take_scroll : Option PendingScroll → Sender C → Sender C × Bool
  unfolding deliver
  take_scroll none s = (s, true)
  take_scroll (some p) s = deliver (input (scroll_event p)) (record s { pending_scroll = none })

  unfoldable pub flush_scroll : Sender C → Sender C × Bool
  unfolding take_scroll
  flush_scroll s = take_scroll s.pending_scroll s

  -- What follows a flush, unless the receiver is gone.
  abbrev pub if_delivered :
      Sender C × Bool
      → (Sender C → Sender C × Result SendError (Unit {0}))
      → Sender C × Result SendError (Unit {0})
  if_delivered (s, true) next = next s
  if_delivered (s, false) next = (mark_closed s, err closed)

  abbrev if_open :
      Sender C → Sender C × Result SendError (Unit {0}) → Sender C × Result SendError (Unit {0})
  if_open s next = if s.channel_closed then (s, err closed) else next

  start_move : ℤ → ℤ → Modifiers → ℕ → ℕ → Sender C → Sender C
  start_move dx dy m t now s = record s {
    pending_move = some (record {
      dx = dx;
      dy = dy;
      modifiers = m;
      timestamp_us = t;
      deadline = now + s.coalesce_window;
    });
  }

  -- A move joins the pending one up to its deadline, which stays, if the modifiers are the same.
  merge_move :
      Option PendingMouseMove
      → ℤ
      → ℤ
      → Modifiers
      → ℕ
      → ℕ
      → Sender C
      → Sender C × Result SendError (Unit {0})
  unfolding start_move
  merge_move none dx dy m t now s = (start_move dx dy m t now s, ok tt)
  merge_move (some p) dx dy m t now s =
      if p.modifiers == m && leb now p.deadline
      then (
        record s {
          pending_move = some (record p {
            dx = saturating_add p.dx dx;
            dy = saturating_add p.dy dy;
            timestamp_us = t;
          });
        },
        ok tt,
      )
      else if_delivered (flush_move s) (λ s'. (start_move dx dy m t now s', ok tt))

  unfoldable pub queue_mouse_move :
      ℤ → ℤ → Modifiers → ℕ → ℕ → Sender C → Sender C × Result SendError (Unit {0})
  unfolding merge_move flush_scroll
  queue_mouse_move dx dy m t now s =
      if_open s (if_delivered (flush_scroll s) (λ s'. merge_move s'.pending_move dx dy m t now s'))

  start_scroll : ℤ → ℤ → Modifiers → ℕ → ℕ → Sender C → Sender C
  start_scroll dx dy m t now s = record s {
    pending_scroll = some (record {
      delta_x = dx;
      delta_y = dy;
      modifiers = m;
      timestamp_us = t;
      deadline = now + s.coalesce_window;
    });
  }

  merge_scroll :
      Option PendingScroll
      → ℤ
      → ℤ
      → Modifiers
      → ℕ
      → ℕ
      → Sender C
      → Sender C × Result SendError (Unit {0})
  unfolding start_scroll
  merge_scroll none dx dy m t now s = (start_scroll dx dy m t now s, ok tt)
  merge_scroll (some p) dx dy m t now s =
      if p.modifiers == m && leb now p.deadline
      then (
        record s {
          pending_scroll = some (record p {
            delta_x = saturating_add p.delta_x dx;
            delta_y = saturating_add p.delta_y dy;
            timestamp_us = t;
          });
        },
        ok tt,
      )
      else if_delivered (flush_scroll s) (λ s'. (start_scroll dx dy m t now s', ok tt))

  unfoldable pub queue_scroll :
      ℤ → ℤ → Modifiers → ℕ → ℕ → Sender C → Sender C × Result SendError (Unit {0})
  unfolding merge_scroll flush_move
  queue_scroll dx dy m t now s =
      if_open s
        (if_delivered (flush_move s) (λ s'. merge_scroll s'.pending_scroll dx dy m t now s'))

  -- A full channel drops the event and counts it.
  after_try : Sender C → TrySend → Sender C × Result SendError (Unit {0})
  after_try s sent = (s, ok tt)
  after_try s full = (record s { dropped_inputs = s.dropped_inputs + 1 }, ok tt)
  after_try s hung_up = (mark_closed s, err closed)

  try_input : InputEvent → Sender C → Sender C × Result SendError (Unit {0})
  unfolding after_try
  try_input e s =
      let (c, result) = ch.try_send (input e) s.channel in
      after_try (record s { channel = c }) result

  unfoldable pub send_immediate_input :
      InputEvent → Sender C → Sender C × Result SendError (Unit {0})
  unfolding flush_move flush_scroll try_input
  send_immediate_input e s =
      if_open s (if_delivered (flush_move s) (λ s'. if_delivered (flush_scroll s') (try_input e)))

  after_send : Sender C → Bool → Sender C × Result SendError (Unit {0})
  after_send s true = (s, ok tt)
  after_send s false = (mark_closed s, err closed)

  -- What is pending is forgotten, and the command waits for room in the channel.
  unfoldable pub send_control_command :
      SessionCommand → Sender C → Sender C × Result SendError (Unit {0})
  unfolding after_send
  send_control_command m s = if_open s (
      let (c, taken) = ch.send m s.channel in
      after_send (record s { pending_move = none; pending_scroll = none; channel = c }) taken)

  -- `SessionSender::send_input`.
  unfoldable pub send_input : InputEvent → ℕ → Sender C → Sender C × Result SendError (Unit {0})
  unfolding queue_mouse_move queue_scroll send_immediate_input
  send_input (mouse_move dx dy m t) now s = queue_mouse_move dx dy m t now s
  send_input (mouse_wheel dx dy m t) now s = queue_scroll dx dy m t now s
  send_input e now s = send_immediate_input e s
