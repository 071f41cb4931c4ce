-- ===== src/Input/Capture/Reach.antt =====
-- Which captured keys the injector of another machine can press.
use flowkey.Base.{Bool, true, false, not, Option, none, some, is_some, ◌≡◌, arith, parse_u8, String}
use flowkey.Base.Assoc.{lookup}
use flowkey.Input.KeyCode.{parse_key_code, code_to_character}
use flowkey.Input.Normalize.{RdevKey, insert, other_key, normalize_key_code}
use flowkey.Input.Injector.Keys.{Key, named_key}
use flowkey.Input.Injector.Refines.{key_of}

-- The key that is pressed for a captured one.
abbrev pub key_for : Option String → Option Key
key_for none = none
key_for (some code) = key_of (parse_key_code code)

-- The keys that no key is pressed for.
abbrev pub is_lost : RdevKey → Bool
is_lost insert = true
is_lost other_key = true
is_lost _ = false

-- For every key that has a code when it is captured the injector has a key to press, but for Insert.
pub captured_key_reaches :
    (k : RdevKey) → is_some (key_for (normalize_key_code k)) ≡ not (is_lost k)
unfolding normalize_key_code parse_key_code code_to_character lookup named_key parse_u8
captured_key_reaches k = ground arith
