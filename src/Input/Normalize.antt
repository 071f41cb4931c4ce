-- ===== src/Input/Normalize.antt =====
-- crates/flowkey-input/src/normalize.rs: keys, buttons and distances as rdev reports them, and their
-- form in events. A floating-point number is a parameter, with the operations on it that are used.
use flowkey.Base.{ℕ, String, Bool, Option, none, some, ◌&&◌, ◌==◌, if◌then◌else◌}
use flowkey.Base.Int.{ℤ, pos, ℤ_eq, i32_max, i32_min}
use flowkey.Input.Event.{MouseButton, left, right, middle}

-- rdev's `Key`: the keys that have a code, and another one.
pub data RdevKey : Type 0 where
  key_a key_b key_c key_d key_e key_f key_g key_h key_i key_j key_k key_l key_m key_n : RdevKey
  key_o key_p key_q key_r key_s key_t key_u key_v key_w key_x key_y key_z num0 num1 : RdevKey
  num2 num3 num4 num5 num6 num7 num8 num9 back_quote minus equal left_bracket : RdevKey
  right_bracket back_slash semi_colon quote comma dot slash return kp_return kp_minus : RdevKey
  kp_plus kp_multiply kp_divide kp0 kp1 kp2 kp3 kp4 kp5 kp6 kp7 kp8 kp9 kp_delete tab : RdevKey
  space escape backspace home end page_up page_down left_arrow right_arrow up_arrow : RdevKey
  down_arrow insert delete caps_lock function num_lock scroll_lock print_screen pause : RdevKey
  f1 f2 f3 f4 f5 f6 f7 f8 f9 f10 f11 f12 shift_left shift_right control_left : RdevKey
  control_right alt alt_gr meta_left meta_right other_key : RdevKey

-- rdev's `Button`.
pub data RdevButton : Type 0 where
  left_press right_press middle_press : RdevButton
  unknown : ℕ → RdevButton

unfoldable pub normalize_key_code : RdevKey → Option String
normalize_key_code key_a = some "KeyA"
normalize_key_code key_b = some "KeyB"
normalize_key_code key_c = some "KeyC"
normalize_key_code key_d = some "KeyD"
normalize_key_code key_e = some "KeyE"
normalize_key_code key_f = some "KeyF"
normalize_key_code key_g = some "KeyG"
normalize_key_code key_h = some "KeyH"
normalize_key_code key_i = some "KeyI"
normalize_key_code key_j = some "KeyJ"
normalize_key_code key_k = some "KeyK"
normalize_key_code key_l = some "KeyL"
normalize_key_code key_m = some "KeyM"
normalize_key_code key_n = some "KeyN"
normalize_key_code key_o = some "KeyO"
normalize_key_code key_p = some "KeyP"
normalize_key_code key_q = some "KeyQ"
normalize_key_code key_r = some "KeyR"
normalize_key_code key_s = some "KeyS"
normalize_key_code key_t = some "KeyT"
normalize_key_code key_u = some "KeyU"
normalize_key_code key_v = some "KeyV"
normalize_key_code key_w = some "KeyW"
normalize_key_code key_x = some "KeyX"
normalize_key_code key_y = some "KeyY"
normalize_key_code key_z = some "KeyZ"
normalize_key_code num0 = some "Digit0"
normalize_key_code num1 = some "Digit1"
normalize_key_code num2 = some "Digit2"
normalize_key_code num3 = some "Digit3"
normalize_key_code num4 = some "Digit4"
normalize_key_code num5 = some "Digit5"
normalize_key_code num6 = some "Digit6"
normalize_key_code num7 = some "Digit7"
normalize_key_code num8 = some "Digit8"
normalize_key_code num9 = some "Digit9"
normalize_key_code back_quote = some "Backquote"
normalize_key_code minus = some "Minus"
normalize_key_code equal = some "Equal"
normalize_key_code left_bracket = some "BracketLeft"
normalize_key_code right_bracket = some "BracketRight"
normalize_key_code back_slash = some "Backslash"
normalize_key_code semi_colon = some "Semicolon"
normalize_key_code quote = some "Quote"
normalize_key_code comma = some "Comma"
normalize_key_code dot = some "Period"
normalize_key_code slash = some "Slash"
normalize_key_code return = some "Enter"
normalize_key_code kp_return = some "NumpadEnter"
normalize_key_code kp_minus = some "NumpadSubtract"
normalize_key_code kp_plus = some "NumpadAdd"
normalize_key_code kp_multiply = some "NumpadMultiply"
normalize_key_code kp_divide = some "NumpadDivide"
normalize_key_code kp0 = some "Numpad0"
normalize_key_code kp1 = some "Numpad1"
normalize_key_code kp2 = some "Numpad2"
normalize_key_code kp3 = some "Numpad3"
normalize_key_code kp4 = some "Numpad4"
normalize_key_code kp5 = some "Numpad5"
normalize_key_code kp6 = some "Numpad6"
normalize_key_code kp7 = some "Numpad7"
normalize_key_code kp8 = some "Numpad8"
normalize_key_code kp9 = some "Numpad9"
normalize_key_code kp_delete = some "NumpadDecimal"
normalize_key_code tab = some "Tab"
normalize_key_code space = some "Space"
normalize_key_code escape = some "Escape"
normalize_key_code backspace = some "Backspace"
normalize_key_code home = some "Home"
normalize_key_code end = some "End"
normalize_key_code page_up = some "PageUp"
normalize_key_code page_down = some "PageDown"
normalize_key_code left_arrow = some "ArrowLeft"
normalize_key_code right_arrow = some "ArrowRight"
normalize_key_code up_arrow = some "ArrowUp"
normalize_key_code down_arrow = some "ArrowDown"
normalize_key_code insert = some "Insert"
normalize_key_code delete = some "Delete"
normalize_key_code caps_lock = some "CapsLock"
normalize_key_code function = some "CapsLock"
normalize_key_code num_lock = some "NumLock"
normalize_key_code scroll_lock = some "ScrollLock"
normalize_key_code print_screen = some "PrintScreen"
normalize_key_code pause = some "Pause"
normalize_key_code f1 = some "F1"
normalize_key_code f2 = some "F2"
normalize_key_code f3 = some "F3"
normalize_key_code f4 = some "F4"
normalize_key_code f5 = some "F5"
normalize_key_code f6 = some "F6"
normalize_key_code f7 = some "F7"
normalize_key_code f8 = some "F8"
normalize_key_code f9 = some "F9"
normalize_key_code f10 = some "F10"
normalize_key_code f11 = some "F11"
normalize_key_code f12 = some "F12"
normalize_key_code shift_left = some "ShiftLeft"
normalize_key_code shift_right = some "ShiftRight"
normalize_key_code control_left = some "ControlLeft"
normalize_key_code control_right = some "ControlRight"
normalize_key_code alt = some "AltLeft"
normalize_key_code alt_gr = some "AltRight"
normalize_key_code meta_left = some "MetaLeft"
normalize_key_code meta_right = some "MetaRight"
normalize_key_code other_key = none

abbrev pub normalize_button : RdevButton → MouseButton
normalize_button left_press = left
normalize_button right_press = right
normalize_button middle_press = middle
normalize_button (unknown _) = middle

-- The operations of an f64, with the comparisons to the bounds of an i32.
pub record FloatApi (F : Type 0) : Type 0 where
  pub minus : F → F → F
  pub round : F → F
  pub above_max : F → Bool
  pub below_min : F → Bool
  pub as_i32 : F → ℤ

module _ {F : Type 0} (float : FloatApi F) where
  -- `i32::MAX` and `i32::MIN` outside the bounds.
  abbrev pub round_delta : F → ℤ
  round_delta value =
      let rounded = float.round value in
      if float.above_max rounded
      then pos i32_max
      else if float.below_min rounded
      then i32_min
      else float.as_i32 rounded

  abbrev moved : ℤ → ℤ → Option (ℤ × ℤ)
  moved dx dy = if dx == pos 0 && dy == pos 0 then none else some (dx, dy)

  unfoldable pub normalize_mouse_move_delta : Option (F × F) → F → F → Option (ℤ × ℤ)
  normalize_mouse_move_delta none x y = none
  normalize_mouse_move_delta (some (last_x, last_y)) x y =
      moved (round_delta (float.minus x last_x)) (round_delta (float.minus y last_y))

  unfoldable pub normalize_wheel_delta : F → F → Option (ℤ × ℤ)
  normalize_wheel_delta delta_x delta_y = moved (round_delta delta_x) (round_delta delta_y)
