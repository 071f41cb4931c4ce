-- ===== src/Examples/Loopback.antt =====
-- A suppressor with a window of 250.
use flowkey.Base.{true, refl, List, [], ◌∷◌, ◌≡◌, ◌≤◌, ◌+◌, arith}
use flowkey.Input.Event.{no_modifiers, InputEvent, matches_ignoring_timestamp, key_down, key_up}
use flowkey.Input.Event.Matching.{at_time}
use flowkey.Input.Loopback.{LoopbackSuppressor, new_suppressor, record_event, should_suppress}
use flowkey.Input.Loopback.Order.{Use, records, asks, use_all}
use flowkey.Input.Loopback.Echoes.{echo_hidden}
use flowkey.Input.Loopback.Once.{suppressions_like, recordings_like, kept_like, hides_once}

abbrev down : InputEvent
down = key_down "KeyA" no_modifiers 7

abbrev uses : List Use
uses = records 1000 1000 1000 down ∷ asks 1010 1010 down ∷ asks 1020 1020 down ∷ []

abbrev one_record : LoopbackSuppressor
one_record = record {
  window = 250;
  recent = record { recorded_at = 1400; event = key_up "KeyA" no_modifiers 8 } ∷ [];
}

-- Another event is recorded, and asked for, between the record of the event and its echo.
abbrev others : List Use
others =
    records 1510 1510 1511 (key_up "KeyB" no_modifiers 8)
    ∷ asks 1520 1520 (key_up "KeyB" no_modifiers 9)
    ∷ []

echo_hidden_example :
    (should_suppress 1600 1600
      (at_time 9 down)
      (use_all others (record_event 1500 1500 1500 down one_record))).1
    ≡ true
echo_hidden_example =
    echo_hidden 1500 1500 1500 1600 1600 9 down others one_record
      (omega arith, ((omega arith, unfold matches_ignoring_timestamp in refl), tt)) (omega arith)

hides_once_example :
    suppressions_like down uses (new_suppressor 250)
      + kept_like down (use_all uses (new_suppressor 250)).recent
    ≤ recordings_like down uses
hides_once_example = hides_once 250 down uses
