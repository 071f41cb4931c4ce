-- ===== src/Input/Injector/Refines.antt =====
-- The injector against a keyboard that is only a set of keys that are down.
use flowkey.Base.{sym, Bool, Option, none, some, Bool_eq, ◌≡◌, refl, arith}
use flowkey.Base.Int.{ℤ, ℤ_eq}
use flowkey.Base.Result.{ok}
use flowkey.Input.Event.{
  Modifiers, MouseButton, InputEvent, key_down, key_up, mouse_move, mouse_button_down,
  mouse_button_up, mouse_wheel,
}
use flowkey.Input.KeyCode.{
  ModifierKind, KeyCode, character, modifier, named, unmapped, parse_key_code, modifier_from_mask,
}
use flowkey.Input.Injector.Keys.{
  Key, unicode, Direction, press, release, named_key, modifier_code_for,
}
use flowkey.Input.Injector.Enigo.{EnigoApi}
use flowkey.Input.Injector.Keys.{held_modifier}
use flowkey.Input.Injector.{
  NativeInputSink, call, sync_modifiers, is_excluded, apply_key, apply_named, key_action,
  button_action, scroll_by, scroll_wheel, inject, handle_input_event, record_loopback,
}
use flowkey.Base.{◌∙◌}
use flowkey.Input.Injector.Recorded.{kind_of, recorded, in_record-modifier, in_record-key}
use flowkey.Input.KeyCode.{unmapped}
use flowkey.Input.Injector.{and_then, scroll_wheel, apply_key, apply_named}
use flowkey.Input.Event.{Modifiers}
use flowkey.Base.{true, false, arith, if◌then◌else◌, List, ap}
use flowkey.Input.Injector.Taken.{
  synced, and_then-ok, apply_key-ok, set_modifier-ok, sync_modifiers-ok,
}
use flowkey.Input.Injector.Holds.{Agrees, handle-Agrees}
use mathlib.Core.Path.{fun_ext}
use flowkey.Input.Injector.Enigo.{key_same, key_same_iff, is_press}
use flowkey.Input.Injector.Recorded.{
  in_record, in_record-key, in_record-modifier, recorded, kind_of, kind_of_iff,
}
use flowkey.Input.Injector.Holds.{named_key-kind}

-- The key of an event, if the injector has one for it.
abbrev pub key_of : KeyCode → Option Key
key_of (modifier kind) = some (held_modifier kind)
key_of (character c) = some (unicode c)
key_of (named n) = named_key n
key_of (unmapped code) = none

-- The keyboard in the specification: the keys that are down.
abbrev pub Keyboard : Type 0
Keyboard = Key → Bool

-- Each modifier is as the mask says, but for an excluded one.
abbrev pub masked : Option ModifierKind → Modifiers → Keyboard → Keyboard
masked exclude m down k = elim (kind_of k) [
  | some kind ↦ if is_excluded kind exclude then down k else modifier_from_mask m kind
  | none ↦ down k
]

abbrev pub typed : Option Key → Bool → Keyboard → Keyboard
typed none pressed down k = down k
typed (some key) pressed down k = if key_same key k then pressed else down k

-- What an event does to the keyboard: the modifiers become those of its mask, and the key of a key
-- event goes down or up.
unfoldable pub after_event : InputEvent → Keyboard → Keyboard
after_event (key_down code m _) down =
    typed (key_of (parse_key_code code)) true (masked none m down)
after_event (key_up code m _) down = typed (key_of (parse_key_code code)) false (masked none m down)
after_event (mouse_move _ _ m _) down = masked none m down
after_event (mouse_button_down _ m _) down = masked none m down
after_event (mouse_button_up _ m _) down = masked none m down
after_event (mouse_wheel _ _ m _) down = masked none m down

typed-cong :
    (key : Option Key) (pressed : Bool) (one other : Keyboard) (k : Key)
    → one k ≡ other k
    → typed key pressed one k ≡ typed key pressed other k
typed-cong none pressed one other k h = h
typed-cong (some key) pressed one other k h = ap (λ b. if key_same key k then pressed else b) h

-- The modifier that an event excludes is the one it types.
typed-masked :
    (code : KeyCode) (pressed : Bool) (m : Modifiers) (down : Keyboard) (k : Key)
    → typed (key_of code) pressed (masked (modifier_code_for code) m down) k
      ≡ typed (key_of code) pressed (masked none m down) k
typed-masked (modifier kind) pressed m down k =
    ground (arith, key_same_iff (held_modifier kind) k, kind_of_iff k kind, kind_of k)
typed-masked (character c) pressed m down k = refl
typed-masked (named n) pressed m down k = refl
typed-masked (unmapped code) pressed m down k = refl

in_record-synced :
    (desired : Modifiers) (exclude : Option ModifierKind) (m : Modifiers) (keys : List Key)
    (k : Key)
    → in_record (synced desired exclude m) keys k ≡ masked exclude desired (in_record m keys) k
unfolding modifier_from_mask
in_record-synced desired exclude m keys k = ground arith

module _ {E : Type 0} (api : EnigoApi E) where
  sync-masked :
      (desired : Modifiers) (exclude : Option ModifierKind) (s : NativeInputSink E)
      → (sync_modifiers api desired exclude s).1 ≡ ok tt
      → (k : Key)
      → recorded (sync_modifiers api desired exclude s).0 k ≡ masked exclude desired (recorded s) k
  sync-masked desired exclude s h k =
      let (mask, keys, _) = sync_modifiers-ok api desired exclude s h in
      rw (mask, keys) (in_record-synced desired exclude s.current_modifiers s.pressed_keys k)

  apply_key-typed :
      (key : Key) (way : Direction) (s : NativeInputSink E)
      → kind_of key ≡ none
      → (apply_key api key way s).1 ≡ ok tt
      → (k : Key)
      → recorded (apply_key api key way s).0 k ≡ typed (some key) (is_press way) (recorded s) k
  apply_key-typed key way s plain h k =
      let (mask, keys, _) = apply_key-ok api key way s h in
      rw (mask, keys) (in_record-key key way s.current_modifiers s.pressed_keys k plain)

  apply_named-typed :
      (key : Option Key) (way : Direction) (s : NativeInputSink E)
      → elim key [ none ↦ none | some k ↦ kind_of k ] ≡ none
      → (apply_named api key way s).1 ≡ ok tt
      → (k : Key)
      → recorded (apply_named api key way s).0 k ≡ typed key (is_press way) (recorded s) k
  unfolding apply_named
  apply_named-typed none way s plain h k = refl
  apply_named-typed (some key) way s plain h k = apply_key-typed key way s plain h k

  key_action-typed :
      (code : KeyCode) (way : Direction) (s : NativeInputSink E)
      → (key_action api code way s).1 ≡ ok tt
      → (k : Key)
      → recorded (key_action api code way s).0 k ≡ typed (key_of code) (is_press way) (recorded s) k
  unfolding key_action
  key_action-typed (modifier kind) way s h k =
      let (mask, keys, _) = set_modifier-ok api kind (is_press way) s h in
      rw (mask, keys) (in_record-modifier kind (is_press way) s.current_modifiers s.pressed_keys k)
  key_action-typed (character c) way s h k = apply_key-typed (unicode c) way s refl h k
  key_action-typed (named n) way s h k =
      apply_named-typed (named_key n) way s (named_key-kind n) h k
  key_action-typed (unmapped code) way s h k = refl

  button-same :
      (b : MouseButton) (way : Direction) (s : NativeInputSink E) (k : Key)
      → recorded (button_action api b way s).0 k ≡ recorded s k
  unfolding button_action call
  button-same b way s k = ground arith

  wheel-same :
      (dx dy : ℤ) (s : NativeInputSink E) (k : Key)
      → recorded (scroll_wheel api dx dy s).0 k ≡ recorded s k
  unfolding scroll_wheel scroll_by call
  wheel-same dx dy s k = ground arith

  move-same :
      (dx dy : ℤ) (s : NativeInputSink E) (k : Key)
      → recorded (call api (api.move_mouse dx dy) (λ q. q) s).0 k ≡ recorded s k
  unfolding call
  move-same dx dy s k = ground arith

  keyed :
      (code : KeyCode) (way : Direction) (m : Modifiers) (s : NativeInputSink E)
      → let done =
          and_then (sync_modifiers api m (modifier_code_for code) s) (key_action api code way) in
        done.1 ≡ ok tt
        → (k : Key)
        → recorded done.0 k ≡ typed (key_of code) (is_press way) (masked none m (recorded s)) k
  keyed code way m s h k =
      let (synced_ok, acted, same) =
        and_then-ok (sync_modifiers api m (modifier_code_for code) s) (key_action api code way) h in
      ap (λ q. recorded q k) same
      ∙ key_action-typed code way (sync_modifiers api m (modifier_code_for code) s).0 acted k
      ∙ typed-cong (key_of code) (is_press way) _ _ k
          (sync-masked m (modifier_code_for code) s synced_ok k)
      ∙ typed-masked code (is_press way) m (recorded s) k

  inject-recorded :
      (e : InputEvent) (s : NativeInputSink E)
      → (inject api e s).1 ≡ ok tt
      → (k : Key) → recorded (inject api e s).0 k ≡ after_event e (recorded s) k
  unfolding inject after_event
  inject-recorded (key_down code m _) s h k = keyed (parse_key_code code) press m s h k
  inject-recorded (key_up code m _) s h k = keyed (parse_key_code code) release m s h k
  inject-recorded (mouse_move dx dy m _) s h k =
      let (synced_ok, _, same) = and_then-ok (sync_modifiers api m none s) _ h in
      ap (λ q. recorded q k) same ∙ move-same dx dy _ k ∙ sync-masked m none s synced_ok k
  inject-recorded (mouse_button_down b m _) s h k =
      let (synced_ok, _, same) = and_then-ok (sync_modifiers api m none s) _ h in
      ap (λ q. recorded q k) same ∙ button-same b press _ k ∙ sync-masked m none s synced_ok k
  inject-recorded (mouse_button_up b m _) s h k =
      let (synced_ok, _, same) = and_then-ok (sync_modifiers api m none s) _ h in
      ap (λ q. recorded q k) same ∙ button-same b release _ k ∙ sync-masked m none s synced_ok k
  inject-recorded (mouse_wheel dx dy m _) s h k =
      let (synced_ok, _, same) = and_then-ok (sync_modifiers api m none s) _ h in
      ap (λ q. recorded q k) same ∙ wheel-same dx dy _ k ∙ sync-masked m none s synced_ok k

  after_event-cong :
      (e : InputEvent) (one other : Keyboard)
      → ((k : Key) → one k ≡ other k)
      → (k : Key) → after_event e one k ≡ after_event e other k
  after_event-cong e one other h k = ap (λ down. after_event e down k) (fun_ext h)

  -- If enigo holds what the sink has recorded and injecting an event succeeds, then enigo holds down
  -- afterwards exactly the keys that the event leaves down on a keyboard that is only a set of keys:
  -- the modifiers of the event's mask, whichever were down before, and the key of a key event by its
  -- direction, all others as they were.
  pub handle_refines :
      (e : InputEvent) (s : NativeInputSink E)
      → Agrees api s
      → (handle_input_event api e s).1 ≡ ok tt
      → (k : Key)
      → api.key_held (handle_input_event api e s).0.enigo k ≡ after_event e (api.key_held s.enigo) k
  unfolding handle_input_event
  handle_refines e s h taken k =
      (handle-Agrees api e s h).0 k
      ∙ inject-recorded e (record_loopback e s) taken k
      ∙ after_event-cong e (recorded s) (api.key_held s.enigo) (λ other. sym (h.0 other)) k
