-- ===== src/Examples/Hotkey.antt =====
-- The chord Ctrl+Shift+K.
use flowkey.Base.{refl, ◌≡◌, true, false, [], ◌∷◌, ◌≤◌}
use flowkey.Input.Event.{Modifiers, no_modifiers, key_down, key_up}
use flowkey.Input.KeyCode.{character, parse_key_code}
use flowkey.Input.Hotkey.{HotkeyBinding, pressed, process, new_tracker}
use flowkey.Input.Hotkey.Latch.{releases, track, let_go_between}

abbrev ctrl_shift : Modifiers
ctrl_shift = record { shift = true; control = true; alt = false; meta = false }

abbrev chord : HotkeyBinding
chord = record { code = character b'k'; modifiers = ctrl_shift }

first_reported : (process (new_tracker chord) (key_down "KeyK" ctrl_shift 1)).1 ≡ pressed
unfolding process new_tracker parse_key_code
first_reported = refl

second_reported :
    (process
      (track (process (new_tracker chord) (key_down "KeyK" ctrl_shift 1)).0 (
        key_down "KeyK" ctrl_shift 2
        ∷ key_up "KeyK" ctrl_shift 3
        ∷ key_up "ControlLeft" no_modifiers 4
        ∷ []))
      (key_down "KeyK" ctrl_shift 5)).1
    ≡ pressed
unfolding process new_tracker track parse_key_code
second_reported = refl

let_go_between_example :
    1
    ≤ releases chord (
        key_down "KeyK" ctrl_shift 2
        ∷ key_up "KeyK" ctrl_shift 3
        ∷ key_up "ControlLeft" no_modifiers 4
        ∷ [])
unfolding new_tracker
let_go_between_example =
    let_go_between (new_tracker chord) (key_down "KeyK" ctrl_shift 1) (key_down "KeyK" ctrl_shift 5)
      (key_down "KeyK" ctrl_shift 2
        ∷ key_up "KeyK" ctrl_shift 3
        ∷ key_up "ControlLeft" no_modifiers 4
        ∷ [])
      first_reported second_reported
