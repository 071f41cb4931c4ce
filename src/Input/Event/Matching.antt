-- ===== src/Input/Event/Matching.antt =====
-- What it means for two events to match without their timestamps.
use flowkey.Base.{ℕ, true, ◌≡◌, refl, sym, ap, ◌∙◌, ◌↔◌, arith, eq_iff}
use flowkey.Base.Int.{int_eq_iff}
use flowkey.Input.Event.{
  InputEvent, key_down, key_up, mouse_move, mouse_button_down, mouse_button_up, mouse_wheel,
  modifiers_eq_iff, button_eq_iff, matches_ignoring_timestamp, timestamp_us,
}

-- The event at another time.
unfoldable pub at_time : ℕ → InputEvent → InputEvent
at_time t (key_down c m _) = key_down c m t
at_time t (key_up c m _) = key_up c m t
at_time t (mouse_move dx dy m _) = mouse_move dx dy m t
at_time t (mouse_button_down b m _) = mouse_button_down b m t
at_time t (mouse_button_up b m _) = mouse_button_up b m t
at_time t (mouse_wheel dx dy m _) = mouse_wheel dx dy m t

-- Two events match exactly if moving the first to the time of the second makes them the same
-- event: nothing but the timestamp is ignored.
pub matches_iff :
    (a b : InputEvent) → (matches_ignoring_timestamp a b ≡ true) ↔ (at_time (timestamp_us b) a ≡ b)
unfolding matches_ignoring_timestamp timestamp_us at_time
matches_iff (key_down c m _) (key_down d n _) = ground (arith, eq_iff c d, modifiers_eq_iff m n)
matches_iff (key_up c m _) (key_up d n _) = ground (arith, eq_iff c d, modifiers_eq_iff m n)
matches_iff (mouse_move x y m _) (mouse_move z w n _) =
    ground (arith, int_eq_iff x z, int_eq_iff y w, modifiers_eq_iff m n)
matches_iff (mouse_button_down b m _) (mouse_button_down c n _) =
    ground (arith, button_eq_iff b c, modifiers_eq_iff m n)
matches_iff (mouse_button_up b m _) (mouse_button_up c n _) =
    ground (arith, button_eq_iff b c, modifiers_eq_iff m n)
matches_iff (mouse_wheel x y m _) (mouse_wheel z w n _) =
    ground (arith, int_eq_iff x z, int_eq_iff y w, modifiers_eq_iff m n)
matches_iff _ _ = ground arith

at_time-timestamp : (t : ℕ) (a : InputEvent) → at_time (timestamp_us (at_time t a)) a ≡ at_time t a
unfolding at_time timestamp_us
at_time-timestamp t (key_down c m _) = refl
at_time-timestamp t _ = refl

pub matches-at_time : (t : ℕ) (a : InputEvent) → matches_ignoring_timestamp a (at_time t a) ≡ true
matches-at_time t a = (matches_iff a (at_time t a)).1 (at_time-timestamp t a)

-- The time of the second event does not matter.
pub matches-retimed :
    (e a : InputEvent) (t : ℕ)
    → matches_ignoring_timestamp e (at_time t a) ≡ matches_ignoring_timestamp e a
unfolding matches_ignoring_timestamp at_time
matches-retimed (key_down c m _) a t = ground arith
matches-retimed (key_up c m _) a t = ground arith
matches-retimed (mouse_move x y m _) a t = ground arith
matches-retimed (mouse_button_down b m _) a t = ground arith
matches-retimed (mouse_button_up b m _) a t = ground arith
matches-retimed (mouse_wheel x y m _) a t = ground arith

-- Events that match each other are matched by the same events.
pub matches-alike :
    (e a b : InputEvent)
    → matches_ignoring_timestamp a b ≡ true
    → matches_ignoring_timestamp e a ≡ matches_ignoring_timestamp e b
matches-alike e a b h =
    sym (matches-retimed e a (timestamp_us b))
    ∙ ap (matches_ignoring_timestamp e) ((matches_iff a b).0 h)

pub matches_itself : (a : InputEvent) → matches_ignoring_timestamp a a ≡ true
matches_itself a = sym (matches-retimed a a (timestamp_us a)) ∙ matches-at_time (timestamp_us a) a
