-- ===== src/Input/Injector.antt =====
-- crates/flowkey-input/src/native_injector.rs and native_injector/windows.rs: the sink that injects
-- events by enigo, in its build for Windows. enigo is a parameter. A HashSet is a list whose elements
-- stand in the set's iteration order, which Rust leaves open. The shared suppressor is seen as the
-- events that it was given, in order.
pub mod Keys
pub mod Enigo
pub mod Sets
pub mod Recorded
pub mod Holds
pub mod Taken
pub mod Refines
pub mod Lifts
pub mod Names
use mathlib.Core.Bool.{decide}
use native.Mathlib.Decide.{ℕ_discrete}
use flowkey.Base.{
  String, Bool, true, false, Option, none, some, List, [], ◌∷◌, ◌++◌, any, not, reverse, ◌==◌, Eq,
  Bool_eq, ◌≡◌, refl, ◌↔◌, arith, if◌then◌else◌,
}
use flowkey.Base.Int.{ℤ, pos, ℤ_eq}
use flowkey.Base.Result.{Result, ok, err}
use flowkey.Input.Event.{
  Modifiers, no_modifiers, MouseButton, InputEvent, key_down, key_up, mouse_move, mouse_button_down,
  mouse_button_up, mouse_wheel,
}
use flowkey.Input.KeyCode.{
  ModifierKind, shift, control, alt, meta, KeyCode, character, modifier, named, unmapped,
  parse_key_code, modifier_from_mask,
}
use flowkey.Input.KeyCode.Equality.{kind_eq}
use flowkey.Input.Sink.{InputEventSink}
use flowkey.Input.Injector.Keys.{
  Key, unicode, Button, left_button, right_button, middle_button, Direction, press, release,
  modifier_key, named_key, modifier_code_for, button_of, button_name, key_release_event,
}
use flowkey.Input.Injector.Enigo.{EnigoApi, Axis, vertical, horizontal, is_press}
use flowkey.Input.Injector.Sets.{with_key, without_key, with_button, without_button}

pub record NativeInputSink (E : Type 0) : Type 0 where
  pub enigo : E
  pub pressed_keys : List Key
  pub pressed_buttons : List Button
  pub current_modifiers : Modifiers
  pub loopback : Option (List InputEvent)

-- A step of the sink, with its error.
abbrev pub Injected : Type 0 → Type 0
Injected E = NativeInputSink E × Result String (Unit {0})

-- `?` on a step whose changes stay.
abbrev pub and_then : {E : Type 0} → Injected E → (NativeInputSink E → Injected E) → Injected E
and_then (s, ok _) next = next s
and_then (s, err m) next = (s, err m)

abbrev pub after_call :
    {E : Type 0}
    → (NativeInputSink E → NativeInputSink E)
    → NativeInputSink E
    → Result String (Unit {0})
    → Injected E
after_call after s (ok _) = (after s, ok tt)
after_call after s (err m) = (s, err m)

abbrev pub record_loopback : {E : Type 0} → InputEvent → NativeInputSink E → NativeInputSink E
record_loopback e s = record s {
  loopback = elim s.loopback [ none ↦ none | some given ↦ some (given ++ e ∷ []) ];
}

abbrev pub set_mask : ModifierKind → Bool → Modifiers → Modifiers
set_mask shift pressed m = record m { shift = pressed }
set_mask control pressed m = record m { control = pressed }
set_mask alt pressed m = record m { alt = pressed }
set_mask meta pressed m = record m { meta = pressed }

abbrev pub direction : Bool → Direction
direction true = press
direction false = release

abbrev pub is_excluded : ModifierKind → Option ModifierKind → Bool
is_excluded kind none = false
is_excluded kind (some other) = kind_eq kind other

abbrev pub change_keys : Key → Direction → List Key → List Key
change_keys k press keys = with_key k keys
change_keys k release keys = without_key k keys

abbrev pub change_buttons : Button → Direction → List Button → List Button
change_buttons b press buttons = with_button b buttons
change_buttons b release buttons = without_button b buttons

-- What is recorded once enigo has taken a call.
abbrev pub mask_set : {E : Type 0} → ModifierKind → Bool → NativeInputSink E → NativeInputSink E
mask_set kind pressed s = record s { current_modifiers = set_mask kind pressed s.current_modifiers }

abbrev pub keys_changed : {E : Type 0} → Key → Direction → NativeInputSink E → NativeInputSink E
keys_changed k way s = record s { pressed_keys = change_keys k way s.pressed_keys }

abbrev pub buttons_changed :
    {E : Type 0} → Button → Direction → NativeInputSink E → NativeInputSink E
buttons_changed b way s = record s { pressed_buttons = change_buttons b way s.pressed_buttons }

module _ {E : Type 0} (api : EnigoApi E) where
  -- `map_err(..)?` on a call of enigo, and what follows.
  unfoldable pub call :
      (E → E × Result String (Unit {0}))
      → (NativeInputSink E → NativeInputSink E)
      → NativeInputSink E
      → Injected E
  call run after s = after_call after (record s { enigo = (run s.enigo).0 }) (run s.enigo).1

  unfoldable pub set_modifier : ModifierKind → Bool → NativeInputSink E → Injected E
  unfolding call
  set_modifier kind pressed =
      call (api.key (modifier_key kind) (direction pressed)) (mask_set kind pressed)

  unfoldable pub sync_modifier :
      Modifiers → Option ModifierKind → ModifierKind → NativeInputSink E → Injected E
  unfolding set_modifier
  sync_modifier desired exclude kind s =
      let wanted = modifier_from_mask desired kind in
      if is_excluded kind exclude
      then (s, ok tt)
      else if not (wanted == modifier_from_mask s.current_modifiers kind)
      then set_modifier kind wanted s
      else (s, ok tt)

  -- The loop over the kinds.
  unfoldable pub sync_modifiers : Modifiers → Option ModifierKind → NativeInputSink E → Injected E
  unfolding sync_modifier
  sync_modifiers desired exclude s = and_then (sync_modifier desired exclude shift s) λ s1.
      and_then (sync_modifier desired exclude control s1) λ s2.
        and_then (sync_modifier desired exclude alt s2) λ s3. sync_modifier desired exclude meta s3

  unfoldable pub apply_key : Key → Direction → NativeInputSink E → Injected E
  unfolding call
  apply_key k way = call (api.key k way) (keys_changed k way)

  unfoldable pub apply_named : Option Key → Direction → NativeInputSink E → Injected E
  unfolding apply_key
  apply_named none way s = (s, ok tt)
  apply_named (some k) way s = apply_key k way s

  unfoldable pub key_action : KeyCode → Direction → NativeInputSink E → Injected E
  unfolding set_modifier apply_key apply_named
  key_action (modifier kind) way s = set_modifier kind (is_press way) s
  key_action (character c) way s = apply_key (unicode c) way s
  key_action (named n) way s = apply_named (named_key n) way s
  key_action (unmapped code) way s = (s, ok tt)

  unfoldable pub button_action : MouseButton → Direction → NativeInputSink E → Injected E
  unfolding call
  button_action b way = call (api.button (button_of b) way) (buttons_changed (button_of b) way)

  -- A distance of zero is not scrolled.
  unfoldable pub scroll_by : ℤ → Axis → NativeInputSink E → Injected E
  unfolding call
  scroll_by n axis s = if n == pos 0 then (s, ok tt) else call (api.scroll n axis) (λ q. q) s

  unfoldable pub scroll_wheel : ℤ → ℤ → NativeInputSink E → Injected E
  unfolding scroll_by
  scroll_wheel dx dy s = and_then (scroll_by dy vertical s) (scroll_by dx horizontal)

  -- The part of `handle_input_event` after the record for the suppressor.
  unfoldable pub inject : InputEvent → NativeInputSink E → Injected E
  unfolding sync_modifiers key_action button_action scroll_wheel call
  inject (key_down code m _) s =
      and_then (sync_modifiers m (modifier_code_for (parse_key_code code)) s)
        (key_action (parse_key_code code) press)
  inject (key_up code m _) s =
      and_then (sync_modifiers m (modifier_code_for (parse_key_code code)) s)
        (key_action (parse_key_code code) release)
  inject (mouse_move dx dy m _) s =
      and_then (sync_modifiers m none s) (call (api.move_mouse dx dy) (λ q. q))
  inject (mouse_button_down b m _) s = and_then (sync_modifiers m none s) (button_action b press)
  inject (mouse_button_up b m _) s = and_then (sync_modifiers m none s) (button_action b release)
  inject (mouse_wheel dx dy m _) s = and_then (sync_modifiers m none s) (scroll_wheel dx dy)

  unfoldable pub handle_input_event : InputEvent → NativeInputSink E → Injected E
  unfolding inject
  handle_input_event e s = inject e (record_loopback e s)

  unfoldable pub release_keys : List Key → NativeInputSink E → Injected E
  unfolding call
  release_keys [] s = (s, ok tt)
  release_keys (k ∷ keys) s =
      let told = record_loopback (key_release_event k s.current_modifiers) s in
      and_then (call (api.key k release) (λ q. q) told) (release_keys keys)

  unfoldable pub release_buttons : List Button → NativeInputSink E → Injected E
  unfolding call
  release_buttons [] s = (s, ok tt)
  release_buttons (b ∷ buttons) s =
      let told = record_loopback (mouse_button_up (button_name b) s.current_modifiers 0) s in
      and_then (call (api.button b release) (λ q. q) told) (release_buttons buttons)

  unfoldable pub release_modifier : ModifierKind → Bool → NativeInputSink E → Injected E
  unfolding set_modifier
  release_modifier kind pressed s =
      let event = key_release_event (modifier_key kind) s.current_modifiers in
      if pressed then set_modifier kind false (record_loopback event s) else (s, ok tt)

  -- The modifiers that were down at the start, from the last kind to the first.
  unfoldable pub release_modifiers : Modifiers → NativeInputSink E → Injected E
  unfolding release_modifier
  release_modifiers m s = and_then (release_modifier meta m.meta s) λ s1.
      and_then (release_modifier alt m.alt s1)
        λ s2. and_then (release_modifier control m.control s2) (release_modifier shift m.shift)

  unfoldable pub release_all_pressed : NativeInputSink E → Injected E
  unfolding release_keys release_buttons release_modifiers
  release_all_pressed s = and_then (release_keys s.pressed_keys s) λ s1.
      and_then (release_buttons s.pressed_buttons s1) λ s2.
        and_then (release_modifiers s.current_modifiers s2) λ s3. (
          record s3 { pressed_keys = []; pressed_buttons = []; current_modifiers = no_modifiers },
          ok tt,
        )

  -- The injector as a sink of events.
  unfoldable pub native_sink : InputEventSink (NativeInputSink E)
  unfolding handle_input_event release_all_pressed
  native_sink = record { handle = handle_input_event; release_all = release_all_pressed }
