-- ===== src/Input/Hotkey.antt =====
-- crates/flowkey-input/src/hotkey.rs: the chord that toggles control, and the tracker that reports
-- it and suppresses the releases of its keys.
pub mod Latch
pub mod Syntax
use flowkey.Base.{
  one_if, ℕ, String, Bool, true, false, not, ◌&&◌, ◌+◌, ◌-◌, ltb, ◌==◌, if◌then◌else◌,
}
use flowkey.Input.Event.{Modifiers, InputEvent, key_down, key_up, Modifiers_eq}
use flowkey.Input.KeyCode.{
  KeyCode, character, modifier, named, unmapped, parse_key_code, modifier_from_mask,
}
use flowkey.Input.KeyCode.Equality.{KeyCode_eq}

pub data HotkeyOutcome : Type 0 where
  pressed suppressed forward : HotkeyOutcome

pub record HotkeyBinding : Type 0 where
  pub code : KeyCode
  pub modifiers : Modifiers

pub record HotkeyTracker : Type 0 where
  pub binding : HotkeyBinding
  pub latched : Bool
  pub suppress_remaining : ℕ

-- The keys of the chord: its own and its modifiers.
abbrev pub component_count : HotkeyBinding → ℕ
component_count b = 1 + (one_if m.shift + (one_if m.control + (one_if m.alt + one_if m.meta)))
  where
    m : Modifiers
    m = b.modifiers

abbrev pub code_matches : HotkeyBinding → String → Bool
code_matches b code = parse_key_code code == b.code

abbrev pub matches : HotkeyBinding → InputEvent → Bool
matches b (key_down code modifiers _) = code_matches b code && modifiers == b.modifiers
matches b _ = false

-- By what the released code parses to.
released_key : KeyCode → String → HotkeyBinding → Bool
released_key (character _) code b = code_matches b code
released_key (named _) code b = code_matches b code
released_key (modifier kind) code b = modifier_from_mask b.modifiers kind
released_key (unmapped _) code b = false

unfoldable pub matches_released_component : HotkeyBinding → InputEvent → Bool
unfolding released_key modifier_from_mask
matches_released_component b (key_up code _ _) = released_key (parse_key_code code) code b
matches_released_component b _ = false

unfoldable pub new_tracker : HotkeyBinding → HotkeyTracker
new_tracker b = record { binding = b; latched = false; suppress_remaining = 0 }

abbrev pub is_suppressing : HotkeyTracker → Bool
is_suppressing t = ltb 0 t.suppress_remaining

-- The release of the chord's own key ends the latch.
abbrev pub unlatch : InputEvent → HotkeyTracker → HotkeyTracker
unlatch (key_up code _ _) t = record t {
  latched = if code_matches t.binding code then false else t.latched;
}
unlatch _ t = t

-- `self.latched = true; self.suppress_remaining = self.binding.component_count()`.
abbrev press : HotkeyTracker → HotkeyTracker
press t = record t { latched = true; suppress_remaining = component_count t.binding }

unfoldable pub process : HotkeyTracker → InputEvent → HotkeyTracker × HotkeyOutcome
unfolding matches_released_component
process t event =
    if is_suppressing t
    then (if matches_released_component t.binding event
        then (
          unlatch event (record t { suppress_remaining = t.suppress_remaining - 1 }),
          suppressed,
        )
        else if matches t.binding event
        then (if not t.latched then (press t, pressed) else (t, suppressed))
        else (t, forward))
    else if not t.latched && matches t.binding event
    then (press t, pressed)
    else (unlatch event t, forward)
