-- ===== src/Net/Sender/Travel.antt =====
-- How far events and commands move the mouse.
use flowkey.Base.{ℕ, ◌+◌, ◌≡◌, refl, sym, List, [], ◌∷◌, ◌++◌, Option, none, some}
use flowkey.Base.Int.{ℤ, magnitude, pos, ◌+ℤ◌, +ℤ_assoc, +ℤ-zero, int_laws}
use flowkey.Input.Event.{InputEvent, mouse_move, Modifiers_eq}
use flowkey.Net.Sender.Channel.{SessionCommand, input}
use flowkey.Net.Sender.State.{PendingMouseMove, PendingScroll}
use flowkey.Net.Sender.Order.{moves, scrolls}
use flowkey.Net.Sender.Closed.{Op, sends}

pub data Axis : Type 0 where
  horizontal vertical : Axis

abbrev pub along : Axis → ℤ → ℤ → ℤ
along horizontal dx dy = dx
along vertical dx dy = dy

-- How far an event moves the mouse.
abbrev pub event_travel : Axis → InputEvent → ℤ
event_travel a (mouse_move dx dy _ _) = along a dx dy
event_travel a _ = pos 0

abbrev pub command_travel : Axis → SessionCommand → ℤ
command_travel a (input e) = event_travel a e
command_travel a _ = pos 0

unfoldable pub travel : Axis → List SessionCommand → ℤ
travel a [] = pos 0
travel a (m ∷ ms) = command_travel a m +ℤ travel a ms

pub travel-append :
    (a : Axis) (ms ns : List SessionCommand) → travel a (ms ++ ns) ≡ travel a ms +ℤ travel a ns
unfolding travel
travel-append a [] ns = omega int_laws
travel-append a (m ∷ ms) ns =
    rw (travel-append a ms ns) (sym (+ℤ_assoc (command_travel a m) (travel a ms) (travel a ns)))

pub travel-single : (a : Axis) (m : SessionCommand) → travel a (m ∷ []) ≡ command_travel a m
unfolding travel
travel-single a m = +ℤ-zero (command_travel a m)

pub from_nothing : (a : Axis) (t : ℤ) → travel a [] +ℤ pos 0 +ℤ t ≡ t
unfolding travel
from_nothing a t = omega int_laws

abbrev pub pending_travel : Axis → Option PendingMouseMove → ℤ
pending_travel a none = pos 0
pending_travel a (some p) = along a p.dx p.dy

pub travel-moves :
    (a : Axis) (p : Option PendingMouseMove) → travel a (moves p) ≡ pending_travel a p
unfolding travel
travel-moves a none = refl
travel-moves a (some p) = +ℤ-zero (along a p.dx p.dy)

pub travel-scrolls : (a : Axis) (p : Option PendingScroll) → travel a (scrolls p) ≡ pos 0
unfolding travel
travel-scrolls a none = refl
travel-scrolls a (some p) = +ℤ-zero (pos 0)

abbrev pub op_travel : Axis → Op → ℤ
op_travel a (sends e now) = event_travel a e
op_travel a _ = pos 0

-- How far the inputs go together, and the length of the way.
unfoldable pub travel_of : Axis → List Op → ℤ
travel_of a [] = pos 0
travel_of a (o ∷ os) = op_travel a o +ℤ travel_of a os

unfoldable pub way_of : Axis → List Op → ℕ
way_of a [] = 0
way_of a (o ∷ os) = magnitude (op_travel a o) + way_of a os
