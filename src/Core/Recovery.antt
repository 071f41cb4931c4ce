-- ===== src/Core/Recovery.antt =====
-- crates/flowkey-core/src/recovery.rs: the tracker of the keys and buttons that the remote peer
-- holds down, and the forced release of all of them.
pub mod Held
pub mod Release
pub mod Told
pub mod Stale
use flowkey.Base.{
  ℕ, String, Bool, true, false, not, List, [], ◌∷◌, ◌++◌, any, remove_first, reverse, ◌+◌, ◌≡◌, ◌↔◌,
  arith, eq_iff, Eq, ◌==◌, String_eq, if◌then◌else◌,
}
use flowkey.Input.Event.{
  Modifiers, no_modifiers, MouseButton, InputEvent, key_down, key_up, mouse_button_down,
  mouse_button_up, MouseButton_eq, button_eq_iff,
}
use flowkey.Input.KeyCode.{
  KeyCode, modifier, ModifierKind, shift, control, alt, meta, parse_key_code,
}
use flowkey.Input.Sink.{InputEventSink}

pub data HeldInput : Type 0 where
  key : String → HeldInput
  button : MouseButton → HeldInput

pub record RecoveryState : Type 0 where
  pub forced_key_releases : ℕ
  pub forced_button_releases : ℕ

pub record HeldKeyTracker : Type 0 where
  pub held_inputs : List HeldInput
  pub modifiers : Modifiers

-- `HeldKeyTracker::default`.
abbrev pub no_held : HeldKeyTracker
no_held = record { held_inputs = []; modifiers = no_modifiers }

abbrev pub held_eq : HeldInput → HeldInput → Bool
held_eq (key a) (key b) = a == b
held_eq (button a) (button b) = a == b
held_eq _ _ = false

pub held_eq_iff : (a b : HeldInput) → (held_eq a b ≡ true) ↔ (a ≡ b)
held_eq_iff (key a) (key b) = ground (arith, eq_iff a b)
held_eq_iff (button a) (button b) = ground (arith, button_eq_iff a b)
held_eq_iff (key a) (button b) = ground arith
held_eq_iff (button a) (key b) = ground arith

abbrev pub contains : HeldInput → List HeldInput → Bool
contains held = any λ other. held_eq other held

-- `hold_key` and `hold_button`.
unfoldable pub hold : HeldInput → HeldKeyTracker → HeldKeyTracker
hold held t =
    if not (contains held t.held_inputs)
    then record t { held_inputs = t.held_inputs ++ held ∷ [] }
    else t

-- `release_key` and `release_button`.
unfoldable pub release : HeldInput → HeldKeyTracker → HeldKeyTracker
release held t = record t { held_inputs = remove_first (λ other. held_eq other held) t.held_inputs }

abbrev pub with_modifier : ModifierKind → Bool → Modifiers → Modifiers
with_modifier shift pressed m = record m { shift = pressed }
with_modifier control pressed m = record m { control = pressed }
with_modifier alt pressed m = record m { alt = pressed }
with_modifier meta pressed m = record m { meta = pressed }

-- The mask after the key went down or up.
abbrev pub after_key : KeyCode → Bool → Modifiers → Modifiers
after_key (modifier kind) pressed m = with_modifier kind pressed m
after_key _ pressed m = m

abbrev set_modifier : String → Bool → HeldKeyTracker → HeldKeyTracker
set_modifier code pressed t = record t {
  modifiers = after_key (parse_key_code code) pressed t.modifiers;
}

unfoldable pub observe : InputEvent → HeldKeyTracker → HeldKeyTracker
unfolding hold release
observe (key_down code _ _) t = set_modifier code true (hold (key code) t)
observe (key_up code _ _) t = set_modifier code false (release (key code) t)
observe (mouse_button_down b _ _) t = hold (button b) t
observe (mouse_button_up b _ _) t = release (button b) t
observe _ t = t

-- The mask that the forced release of a key carries: the tracker's, without the key's own.
unfoldable pub modifiers_for_key_release : HeldKeyTracker → String → Modifiers
modifiers_for_key_release t code = after_key (parse_key_code code) false t.modifiers

abbrev pub keys_of : List HeldInput → List String
keys_of [] = []
keys_of (key code ∷ held) = code ∷ keys_of held
keys_of (button _ ∷ held) = keys_of held

abbrev pub buttons_of : List HeldInput → List MouseButton
buttons_of [] = []
buttons_of (key _ ∷ held) = buttons_of held
buttons_of (button b ∷ held) = b ∷ buttons_of held

module _ {S : Type 0} (sink : InputEventSink S) where
  -- The loop over the held keys: a sink's error is logged and passed over. The last mask that was
  -- sent is what the buttons' releases carry.
  unfoldable pub release_keys : HeldKeyTracker → List String → Modifiers → S → ℕ → Modifiers × S × ℕ
  unfolding modifiers_for_key_release
  release_keys t [] cleared s n = (cleared, s, n)
  release_keys t (code ∷ codes) cleared s n =
      let mask = modifiers_for_key_release t code in
      release_keys t codes mask (sink.handle (key_up code mask 0) s).0 (n + 1)

  unfoldable pub release_buttons : Modifiers → List MouseButton → S → ℕ → S × ℕ
  release_buttons mask [] s n = (s, n)
  release_buttons mask (b ∷ buttons) s n =
      release_buttons mask buttons (sink.handle (mouse_button_up b mask 0) s).0 (n + 1)

  unfoldable pub release_all : HeldKeyTracker → S → HeldKeyTracker × S × RecoveryState
  unfolding release_keys release_buttons
  release_all t s =
      let held = reverse t.held_inputs in
      let (mask, s', forced_keys) = release_keys t (keys_of held) t.modifiers s 0 in
      let (s'', forced_buttons) = release_buttons mask (buttons_of held) s' 0 in
      (
        no_held,
        s'',
        record { forced_key_releases = forced_keys; forced_button_releases = forced_buttons },
      )
