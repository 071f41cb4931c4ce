-- ===== src/Input/KeyCode.antt =====
-- crates/flowkey-input/src/keycode.rs: the names of keys on the wire. A `match` on string literals
-- is a search in the table of its arms, from the first one; a `char` is its code point.
pub mod Equality
use flowkey.Base.{
  ℕ, String, Bool, Option, none, some, List, [], ◌∷◌, ◌&&◌, codes, parse_u8, leb, ltb, nat_eq,
  if◌then◌else◌,
}
use flowkey.Base.Assoc.{lookup}
use flowkey.Input.Event.{Modifiers}

pub data ModifierKind : Type 0 where
  shift control alt meta : ModifierKind

pub data NamedKey : Type 0 where
  backspace tab enter escape space left_arrow right_arrow up_arrow down_arrow : NamedKey
  home end page_up page_down insert delete caps_lock num_lock scroll_lock : NamedKey
  print_screen pause : NamedKey
  f : ℕ → NamedKey

pub data KeyCode : Type 0 where
  character : ℕ → KeyCode
  modifier : ModifierKind → KeyCode
  named : NamedKey → KeyCode
  unmapped : String → KeyCode

-- The arms of `parse_key_code` in front of the one for function keys.
abbrev leading_names : List (String × KeyCode)
leading_names =
    ("ShiftLeft", modifier shift)
    ∷ ("ShiftRight", modifier shift)
    ∷ ("ControlLeft", modifier control)
    ∷ ("ControlRight", modifier control)
    ∷ ("CtrlLeft", modifier control)
    ∷ ("CtrlRight", modifier control)
    ∷ ("AltLeft", modifier alt)
    ∷ ("AltRight", modifier alt)
    ∷ ("OptionLeft", modifier alt)
    ∷ ("OptionRight", modifier alt)
    ∷ ("MetaLeft", modifier meta)
    ∷ ("MetaRight", modifier meta)
    ∷ ("OSLeft", modifier meta)
    ∷ ("OSRight", modifier meta)
    ∷ ("CommandLeft", modifier meta)
    ∷ ("CommandRight", modifier meta)
    ∷ ("Backspace", named backspace)
    ∷ ("Tab", named tab)
    ∷ ("Enter", named enter)
    ∷ ("Escape", named escape)
    ∷ ("Esc", named escape)
    ∷ ("Space", named space)
    ∷ ("Spacebar", named space)
    ∷ ("ArrowLeft", named left_arrow)
    ∷ ("ArrowRight", named right_arrow)
    ∷ ("ArrowUp", named up_arrow)
    ∷ ("ArrowDown", named down_arrow)
    ∷ ("Home", named home)
    ∷ ("End", named end)
    ∷ ("PageUp", named page_up)
    ∷ ("PageDown", named page_down)
    ∷ ("Insert", named insert)
    ∷ ("Delete", named delete)
    ∷ ("Del", named delete)
    ∷ ("CapsLock", named caps_lock)
    ∷ ("NumLock", named num_lock)
    ∷ ("ScrollLock", named scroll_lock)
    ∷ ("PrintScreen", named print_screen)
    ∷ ("Pause", named pause)
    ∷ ("Break", named pause)
    ∷ []

-- The arms behind it.
abbrev trailing_names : List (String × KeyCode)
trailing_names =
    ("Minus", character b'-')
    ∷ ("Equal", character b'=')
    ∷ ("BracketLeft", character b'[')
    ∷ ("BracketRight", character b']')
    ∷ ("Backslash", character 92)
    ∷ ("Semicolon", character b';')
    ∷ ("Quote", character 39)
    ∷ ("Backquote", character b'`')
    ∷ ("Comma", character b',')
    ∷ ("Period", character b'.')
    ∷ ("Slash", character b'/')
    ∷ ("IntlBackslash", character 92)
    ∷ ("Numpad0", character b'0')
    ∷ ("Numpad1", character b'1')
    ∷ ("Numpad2", character b'2')
    ∷ ("Numpad3", character b'3')
    ∷ ("Numpad4", character b'4')
    ∷ ("Numpad5", character b'5')
    ∷ ("Numpad6", character b'6')
    ∷ ("Numpad7", character b'7')
    ∷ ("Numpad8", character b'8')
    ∷ ("Numpad9", character b'9')
    ∷ ("NumpadEnter", named enter)
    ∷ ("NumpadAdd", character b'+')
    ∷ ("NumpadSubtract", character b'-')
    ∷ ("NumpadMultiply", character b'*')
    ∷ ("NumpadDivide", character b'/')
    ∷ ("NumpadDecimal", character b'.')
    ∷ ("NumpadEqual", character b'=')
    ∷ ("NumpadComma", character b',')
    ∷ []

abbrev character_names : List (String × ℕ)
character_names =
    ("KeyA", b'a')
    ∷ ("A", b'a')
    ∷ ("KeyB", b'b')
    ∷ ("B", b'b')
    ∷ ("KeyC", b'c')
    ∷ ("C", b'c')
    ∷ ("KeyD", b'd')
    ∷ ("D", b'd')
    ∷ ("KeyE", b'e')
    ∷ ("E", b'e')
    ∷ ("KeyF", b'f')
    ∷ ("F", b'f')
    ∷ ("KeyG", b'g')
    ∷ ("G", b'g')
    ∷ ("KeyH", b'h')
    ∷ ("H", b'h')
    ∷ ("KeyI", b'i')
    ∷ ("I", b'i')
    ∷ ("KeyJ", b'j')
    ∷ ("J", b'j')
    ∷ ("KeyK", b'k')
    ∷ ("K", b'k')
    ∷ ("KeyL", b'l')
    ∷ ("L", b'l')
    ∷ ("KeyM", b'm')
    ∷ ("M", b'm')
    ∷ ("KeyN", b'n')
    ∷ ("N", b'n')
    ∷ ("KeyO", b'o')
    ∷ ("O", b'o')
    ∷ ("KeyP", b'p')
    ∷ ("P", b'p')
    ∷ ("KeyQ", b'q')
    ∷ ("Q", b'q')
    ∷ ("KeyR", b'r')
    ∷ ("R", b'r')
    ∷ ("KeyS", b's')
    ∷ ("S", b's')
    ∷ ("KeyT", b't')
    ∷ ("T", b't')
    ∷ ("KeyU", b'u')
    ∷ ("U", b'u')
    ∷ ("KeyV", b'v')
    ∷ ("V", b'v')
    ∷ ("KeyW", b'w')
    ∷ ("W", b'w')
    ∷ ("KeyX", b'x')
    ∷ ("X", b'x')
    ∷ ("KeyY", b'y')
    ∷ ("Y", b'y')
    ∷ ("KeyZ", b'z')
    ∷ ("Z", b'z')
    ∷ ("Digit0", b'0')
    ∷ ("0", b'0')
    ∷ ("Digit1", b'1')
    ∷ ("1", b'1')
    ∷ ("Digit2", b'2')
    ∷ ("2", b'2')
    ∷ ("Digit3", b'3')
    ∷ ("3", b'3')
    ∷ ("Digit4", b'4')
    ∷ ("4", b'4')
    ∷ ("Digit5", b'5')
    ∷ ("5", b'5')
    ∷ ("Digit6", b'6')
    ∷ ("6", b'6')
    ∷ ("Digit7", b'7')
    ∷ ("7", b'7')
    ∷ ("Digit8", b'8')
    ∷ ("8", b'8')
    ∷ ("Digit9", b'9')
    ∷ ("9", b'9')
    ∷ []

-- `len() == 1` counts bytes: the one character is ASCII.
single_byte : List ℕ → Option ℕ
single_byte (c ∷ []) = if ltb c 128 then some c else none
single_byte _ = none

unfoldable pub code_to_character : String → Option ℕ
unfolding single_byte lookup
code_to_character name = elim (lookup name character_names) [
  | some c ↦ some c
  | none ↦ single_byte (codes name)
]

character_or_unmapped : String → KeyCode
unfolding code_to_character
character_or_unmapped name = elim (code_to_character name) [
  | some c ↦ character c
  | none ↦ unmapped name
]

-- The arm for names that start with an F: a function key from 1 to 24, or else a character.
function_key : Option ℕ → String → KeyCode
unfolding character_or_unmapped
function_key (some index) name =
    if leb 1 index && leb index 24 then named (f index) else character_or_unmapped name
function_key none name = character_or_unmapped name

abbrev trailing : String → KeyCode
unfolding character_or_unmapped lookup
trailing name = elim (lookup name trailing_names) [
  | some key ↦ key
  | none ↦ character_or_unmapped name
]

by_first_letter : List ℕ → String → KeyCode
unfolding function_key trailing character_or_unmapped parse_u8 lookup
by_first_letter (c ∷ cs) name =
    if nat_eq c b'F' then function_key (parse_u8 cs) name else trailing name
by_first_letter [] name = trailing name

unfoldable pub parse_key_code : String → KeyCode
unfolding by_first_letter lookup
parse_key_code name = elim (lookup name leading_names) [
  | some key ↦ key
  | none ↦ by_first_letter (codes name) name
]

unfoldable pub modifier_from_mask : Modifiers → ModifierKind → Bool
modifier_from_mask m shift = m.shift
modifier_from_mask m control = m.control
modifier_from_mask m alt = m.alt
modifier_from_mask m meta = m.meta
