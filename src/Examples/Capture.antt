-- ===== src/Examples/Capture.antt =====
-- A listener over integers in the place of floating-point numbers.
use flowkey.Base.{false, not, ◌||◌, some, is_some, List, [], ◌∷◌, ◌≡◌}
use flowkey.Base.Int.{ℤ}
use flowkey.Input.Event.{no_modifiers, InputEvent, key_down}
use flowkey.Input.KeyCode.{character}
use flowkey.Input.Hotkey.{new_tracker}
use flowkey.Input.Loopback.{new_suppressor, record_event}
use flowkey.Input.Normalize.{
  FloatApi, key_a, shift_left, shift_right, control_left, control_right, alt, alt_gr, meta_left,
  meta_right, normalize_key_code,
}
use flowkey.Input.Capture.{RdevEvent, key_press, key_release, default_state, Listener}
use flowkey.Input.Capture.Masks.{is_down, capture_all, capture_all-modifiers}
use flowkey.Input.Capture.Reach.{key_for, is_lost, captured_key_reaches}

abbrev integers : FloatApi ℤ
integers = record {
  minus = λ x y. x;
  round = λ x. x;
  above_max = λ x. false;
  below_min = λ x. false;
  as_i32 = λ x. x;
}

-- Both shift keys go down, and the left one up.
abbrev shifts : List (RdevEvent ℤ)
shifts =
    record { event_type = key_press shift_left; time = 1 }
    ∷ record { event_type = key_press shift_right; time = 2 }
    ∷ record { event_type = key_release shift_left; time = 3 }
    ∷ []

capture_all-modifiers_example : (capture_all integers shifts default_state).modifiers ≡ record {
  shift = is_down shift_left shifts false || is_down shift_right shifts false;
  control = is_down control_left shifts false || is_down control_right shifts false;
  alt = is_down alt shifts false || is_down alt_gr shifts false;
  meta = is_down meta_left shifts false || is_down meta_right shifts false;
}
capture_all-modifiers_example = capture_all-modifiers integers shifts

captured_key_reaches_example : is_some (key_for (normalize_key_code key_a)) ≡ not (is_lost key_a)
captured_key_reaches_example = captured_key_reaches key_a

abbrev press : InputEvent
press = key_down "KeyA" no_modifiers 1

abbrev listener : Listener ℤ
listener = record {
  state = default_state;
  hotkeys = new_tracker (record { code = character b'k'; modifiers = no_modifiers });
  loopback = some (record_event 1500 1500 1500 press (new_suppressor 250));
}

abbrev comes_back : RdevEvent ℤ
comes_back = record { event_type = key_press key_a; time = 9 }
