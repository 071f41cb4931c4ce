-- ===== src/Input/Injector/Keys.antt =====
-- crates/flowkey-input/src/native_injector.rs: the keys and buttons of enigo that the injector names,
-- on Windows, and the tables between them and the key codes of events. The keys F1 to F20 are one
-- constructor. A name that the code takes from the derived `Debug` is the name of the variant.
use Prim.Native.Char.{Char, char, IsLt, nul}
use Prim.Native.Nat.{Ordering, compare}
use Prim.Native.String
use flowkey.Base.{
  ℕ, zero, suc, String, false, Option, none, some, List, [], ◌∷◌, ◌-◌, ◌&&◌, leb, if◌then◌else◌,
}
use flowkey.Input.Event.{MouseButton, left, right, middle, Modifiers, InputEvent, key_up}
use flowkey.Input.KeyCode.{
  ModifierKind, shift, control, alt, meta, NamedKey, backspace, tab, enter, escape, space,
  left_arrow, right_arrow, up_arrow, down_arrow, home, end, page_up, page_down, insert, delete,
  caps_lock, num_lock, scroll_lock, print_screen, pause, f, KeyCode, modifier,
}

-- enigo's `Key`, as far as the injector names its variants.
pub data Key : Type 0 where
  unicode : ℕ → Key
  held_modifier : ModifierKind → Key
  backspace_key tab_key return_key escape_key space_key : Key
  up_arrow_key down_arrow_key left_arrow_key right_arrow_key : Key
  home_key end_key page_up_key page_down_key delete_key : Key
  caps_lock_key numlock_key scroll_key print_scr_key pause_key : Key
  f_key : ℕ → Key

-- enigo's `Button`, of which the injector has three.
pub data Button : Type 0 where
  left_button right_button middle_button : Button

pub data Direction : Type 0 where
  press release : Direction

abbrev pub modifier_key : ModifierKind → Key
modifier_key kind = held_modifier kind

unfoldable pub named_key : NamedKey → Option Key
named_key backspace = some backspace_key
named_key tab = some tab_key
named_key enter = some return_key
named_key escape = some escape_key
named_key space = some space_key
named_key left_arrow = some left_arrow_key
named_key right_arrow = some right_arrow_key
named_key up_arrow = some up_arrow_key
named_key down_arrow = some down_arrow_key
named_key home = some home_key
named_key end = some end_key
named_key page_up = some page_up_key
named_key page_down = some page_down_key
named_key insert = none
named_key delete = some delete_key
named_key caps_lock = some caps_lock_key
named_key num_lock = some numlock_key
named_key scroll_lock = some scroll_key
named_key print_screen = some print_scr_key
named_key pause = some pause_key
named_key (f index) = if leb 1 index && leb index 20 then some (f_key index) else none

abbrev pub modifier_code_for : KeyCode → Option ModifierKind
modifier_code_for (modifier kind) = some kind
modifier_code_for _ = none

abbrev pub button_of : MouseButton → Button
button_of left = left_button
button_of right = right_button
button_of middle = middle_button

abbrev pub button_name : Button → MouseButton
button_name left_button = left
button_name right_button = right
button_name middle_button = middle

-- A scalar value lies below the surrogates, or above them and below the end.
abbrev Above : Ordering → Ordering → Type 0
Above Ordering.lt last = IsLt last
Above Ordering.eq last = ⊥
Above Ordering.gt last = ⊥

abbrev Valid : Ordering → Ordering → Ordering → Type 0
Valid Ordering.lt high last = Unit
Valid Ordering.eq high last = Above high last
Valid Ordering.gt high last = Above high last

valid : (low high last : Ordering) → Option (Valid low high last)
valid Ordering.lt high last = some tt
valid Ordering.eq Ordering.lt Ordering.lt = some tt
valid Ordering.gt Ordering.lt Ordering.lt = some tt
valid _ _ _ = none

-- The character of a code point.
to_char : ℕ → Char
unfolding valid
to_char n = elim (valid (compare n 55296) (compare 57343 n) (compare n 1114112)) [
  | some fits ↦ char n fits
  | none ↦ nul
]

-- `to_ascii_uppercase`.
abbrev pub to_ascii_uppercase : ℕ → ℕ
to_ascii_uppercase c = if leb b'a' c && leb c b'z' then c - 32 else c

abbrev nth_name : ℕ → List String → String
nth_name n [] = ""
nth_name zero (name ∷ names) = name
nth_name (suc n) (name ∷ names) = nth_name n names

abbrev f_names : List String
f_names =
    "F1" ∷ "F2" ∷ "F3" ∷ "F4" ∷ "F5" ∷ "F6" ∷ "F7" ∷ "F8" ∷ "F9" ∷ "F10" ∷ "F11" ∷ "F12" ∷ "F13"
    ∷ "F14" ∷ "F15" ∷ "F16" ∷ "F17" ∷ "F18" ∷ "F19" ∷ "F20" ∷ []

abbrev modifier_name : ModifierKind → String
modifier_name shift = "ShiftLeft"
modifier_name control = "ControlLeft"
modifier_name alt = "AltLeft"
modifier_name meta = "MetaLeft"

unfoldable pub key_code_name : Key → String
unfolding to_char
key_code_name backspace_key = "Backspace"
key_code_name tab_key = "Tab"
key_code_name return_key = "Enter"
key_code_name escape_key = "Escape"
key_code_name space_key = "Space"
key_code_name up_arrow_key = "ArrowUp"
key_code_name down_arrow_key = "ArrowDown"
key_code_name left_arrow_key = "ArrowLeft"
key_code_name right_arrow_key = "ArrowRight"
key_code_name home_key = "Home"
key_code_name end_key = "End"
key_code_name page_up_key = "PageUp"
key_code_name page_down_key = "PageDown"
key_code_name (held_modifier kind) = modifier_name kind
key_code_name (unicode c) =
    String.◌++◌ "Key" (String.◌∷◌ (to_char (to_ascii_uppercase c)) String.[])
key_code_name delete_key = "Delete"
key_code_name caps_lock_key = "CapsLock"
key_code_name numlock_key = "Numlock"
key_code_name scroll_key = "Scroll"
key_code_name print_scr_key = "PrintScr"
key_code_name pause_key = "Pause"
key_code_name (f_key index) = nth_name (index - 1) f_names

-- The mask that the release of a key carries: a modifier's own is off.
abbrev pub without_own : Key → Modifiers → Modifiers
without_own (held_modifier shift) m = record m { shift = false }
without_own (held_modifier control) m = record m { control = false }
without_own (held_modifier alt) m = record m { alt = false }
without_own (held_modifier meta) m = record m { meta = false }
without_own _ m = m

unfoldable pub key_release_event : Key → Modifiers → InputEvent
unfolding key_code_name
key_release_event key modifiers = key_up (key_code_name key) (without_own key modifiers) 0
