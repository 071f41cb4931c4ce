-- ===== src/Net/Sender/State.antt =====
-- The state of the sending end, which the mutex and the atomics of crates/flowkey-net's
-- `SessionSenderInner` hold.
use flowkey.Base.{ℕ, Bool, true, false, Option, none, some, leb, ltb, min}
use flowkey.Base.Int.{ℤ}
use flowkey.Input.Event.{Modifiers, InputEvent, mouse_move, mouse_wheel}
use flowkey.Net.Sender.Channel.{TrySend, sent, full, hung_up}

pub record PendingMouseMove : Type 0 where
  pub dx : ℤ
  pub dy : ℤ
  pub modifiers : Modifiers
  pub timestamp_us : ℕ
  pub deadline : ℕ

pub record PendingScroll : Type 0 where
  pub delta_x : ℤ
  pub delta_y : ℤ
  pub modifiers : Modifiers
  pub timestamp_us : ℕ
  pub deadline : ℕ

-- `SessionSenderInner` with its `InputCoalescer`.
pub record Sender (C : Type 0) : Type 0 where
  pub channel : C
  pub coalesce_window : ℕ
  pub pending_move : Option PendingMouseMove
  pub pending_scroll : Option PendingScroll
  pub shutdown : Bool
  pub channel_closed : Bool
  pub sender_refs : ℕ
  pub dropped_inputs : ℕ

-- The one error: "session command channel closed".
pub data SendError : Type 0 where
  closed : SendError

unfoldable pub new_sender : {C : Type 0} → C → ℕ → Sender C
new_sender channel window = record {
  channel = channel;
  coalesce_window = window;
  pending_move = none;
  pending_scroll = none;
  shutdown = false;
  channel_closed = false;
  sender_refs = 1;
  dropped_inputs = 0;
}

-- `mark_channel_closed`.
abbrev pub mark_closed : {C : Type 0} → Sender C → Sender C
mark_closed s = record s { channel_closed = true }

-- `earliest_deadline`.
unfoldable pub earliest_deadline : Option PendingMouseMove → Option PendingScroll → Option ℕ
earliest_deadline (some m) (some s) = some (min m.deadline s.deadline)
earliest_deadline (some m) none = some m.deadline
earliest_deadline none (some s) = some s.deadline
earliest_deadline none none = none

-- A coalesced event that finds the channel full is dropped in silence; only a receiver that is gone
-- is an error (false).
abbrev pub delivered : TrySend → Bool
delivered sent = true
delivered full = true
delivered hung_up = false

abbrev pub move_event : PendingMouseMove → InputEvent
move_event p = mouse_move p.dx p.dy p.modifiers p.timestamp_us

abbrev pub scroll_event : PendingScroll → InputEvent
scroll_event p = mouse_wheel p.delta_x p.delta_y p.modifiers p.timestamp_us

-- `now >= deadline` of a pending event.
abbrev pub move_due : ℕ → Option PendingMouseMove → Bool
move_due now none = false
move_due now (some p) = leb p.deadline now

abbrev pub scroll_due : ℕ → Option PendingScroll → Bool
scroll_due now none = false
scroll_due now (some p) = leb p.deadline now

-- Is a deadline there that has not come?
abbrev pub is_early : ℕ → Option ℕ → Bool
is_early now none = false
is_early now (some deadline) = ltb now deadline
