-- ===== src/Net/Sender/Worker.antt =====
-- The worker that flushes the pending events when their deadlines come, and the counts of the
-- senders: crates/flowkey-net/src/connection.rs. The worker sleeps without the lock, so that one
-- pass of its loop has two parts: until it sleeps it changes nothing, and `worker_pass` is the rest.
use flowkey.Base.{ℕ, Bool, true, false, ◌&&◌, ◌||◌, none, ◌+◌, ◌-◌, nat_eq, if◌then◌else◌}
use flowkey.Net.Sender.Channel.{SendChannel}
use flowkey.Net.Sender.State.{
  Sender, mark_closed, earliest_deadline, move_due, scroll_due, is_early,
}
use flowkey.Net.Sender.{flush_move, flush_scroll}

-- What the worker does next: another round of its loop, or it is at its end.
pub data Next : Type 0 where
  again stop : Next

-- `SessionSender::clone` and `drop`: the last sender to go shuts the worker down.
unfoldable pub clone_sender : {C : Type 0} → Sender C → Sender C
clone_sender s = record s { sender_refs = s.sender_refs + 1 }

unfoldable pub drop_sender : {C : Type 0} → Sender C → Sender C
drop_sender s = record s {
  sender_refs = s.sender_refs - 1;
  shutdown = if nat_eq s.sender_refs 1 then true else s.shutdown;
}

-- `SessionCommandReceiver::drop`, as the senders see it.
unfoldable pub drop_receiver : {C : Type 0} → Sender C → Sender C
drop_receiver s = mark_closed s

-- Shut down: what is pending is forgotten.
abbrev pub clear_pending : {C : Type 0} → Sender C → Sender C
clear_pending s = record s { pending_move = none; pending_scroll = none }

-- Nothing is pending: the worker ends, or waits to be woken.
unfoldable pub idle_worker : {C : Type 0} → Sender C → Next
idle_worker s = if s.shutdown || s.channel_closed then stop else again

module _ {C : Type 0} (ch : SendChannel C) where
  -- After a flush: a receiver that is gone closes the channel, and the worker ends.
  unfoldable pub flushed : Sender C × Bool → Sender C × Next
  flushed (s, true) = (s, again)
  flushed (s, false) = (mark_closed s, stop)

  unfoldable pub flush_due_scroll : ℕ → Sender C × Next → Sender C × Next
  unfolding flushed
  flush_due_scroll now (s, stop) = (s, stop)
  flush_due_scroll now (s, again) =
      if scroll_due now s.pending_scroll then flushed (flush_scroll ch s) else (s, again)

  unfoldable pub flush_due : ℕ → Sender C → Sender C × Next
  unfolding flush_due_scroll flushed
  flush_due now s =
      flush_due_scroll now
        (if move_due now s.pending_move then flushed (flush_move ch s) else (s, again))

  -- The pass behind the sleep, with something pending. `slept` says whether the deadline was to
  -- come; `woken` is the reading after the sleep, `now` the one for the flush.
  unfoldable pub worker_pass : Bool → ℕ → ℕ → Sender C → Sender C × Next
  unfolding flush_due
  worker_pass slept woken now s =
      if s.shutdown
      then (clear_pending s, stop)
      else if slept && s.channel_closed
      then (s, stop)
      else if slept && is_early woken (earliest_deadline s.pending_move s.pending_scroll)
      then (s, again)
      else flush_due now s
