-- ===== src/Input/Injector/Holds.antt =====
-- What enigo holds down against what the sink has recorded.
use flowkey.Base.{String, Bool, Option, none, some, not, ◌==◌, Bool_eq, ◌≡◌, refl, arith}
use flowkey.Base.Int.{ℤ, pos, ℤ_eq}
use flowkey.Base.Result.{ok, err}
use flowkey.Input.Event.{
  Modifiers, MouseButton, InputEvent, key_down, key_up, mouse_move, mouse_button_down,
  mouse_button_up, mouse_wheel,
}
use flowkey.Input.KeyCode.{
  ModifierKind, shift, control, alt, meta, KeyCode, character, modifier, named, unmapped, NamedKey,
  parse_key_code, modifier_from_mask,
}
use flowkey.Input.Injector.Keys.{
  Key, unicode, Button, Direction, press, release, named_key, modifier_code_for, button_of,
}
use flowkey.Input.Injector.Enigo.{is_press, EnigoApi, Axis, vertical, horizontal}
use flowkey.Input.Injector.Keys.{held_modifier}
use flowkey.Input.Injector.Sets.{
  has_button, has_button-with_button, has_button-without_button, button_same_iff,
}
use flowkey.Input.Injector.{
  NativeInputSink, call, set_modifier, sync_modifier, sync_modifiers, is_excluded, apply_key,
  apply_named, key_action, button_action, scroll_by, scroll_wheel, inject, handle_input_event,
  record_loopback, direction, mask_set, keys_changed, buttons_changed,
}
use flowkey.Base.{◌∙◌}
use flowkey.Input.Injector.Recorded.{
  and_then-keeps, if-keeps, call-keeps, kind_of, recorded, in_record-modifier, in_record-key,
}

pub named_key-kind :
    (n : NamedKey) → elim (named_key n) [ none ↦ none | some key ↦ kind_of key ] ≡ none
unfolding named_key
named_key-kind n = ground arith

module _ {E : Type 0} (api : EnigoApi E) where
  -- What enigo holds is what the sink has recorded.
  abbrev pub Agrees : NativeInputSink E → Type 0
  Agrees s =
      ((k : Key) → api.key_held s.enigo k ≡ recorded s k)
      × ((b : Button) → api.button_held s.enigo b ≡ has_button b s.pressed_buttons)

  -- A call of enigo that is refused.
  refused-Agrees :
      (k : Key) (way : Direction) (s : NativeInputSink E) (m : String)
      → Agrees s
      → (api.key k way s.enigo).1 ≡ err m
      → Agrees (record s { enigo = (api.key k way s.enigo).0 })
  refused-Agrees k way s m h e = (
    λ asked. api.key-refused k way s.enigo asked m e ∙ h.0 asked,
    λ b. api.key-buttons k way s.enigo b ∙ h.1 b,
  )

  pub set_modifier-Agrees :
      (kind : ModifierKind) (pressed : Bool) (s : NativeInputSink E)
      → Agrees s
      → Agrees (set_modifier api kind pressed s).0
  unfolding set_modifier
  set_modifier-Agrees kind pressed s h =
      call-keeps Agrees api (api.key (held_modifier kind) (direction pressed))
        (mask_set kind pressed) s
        (λ e. (
          λ k. ground (
            arith,
            h.0 k,
            api.key-taken (held_modifier kind) (direction pressed) s.enigo k e,
            in_record-modifier kind pressed s.current_modifiers s.pressed_keys k,
          ),
          λ b. api.key-buttons (held_modifier kind) (direction pressed) s.enigo b ∙ h.1 b,
        ))
        (λ m e. refused-Agrees (held_modifier kind) (direction pressed) s m h e)

  pub apply_key-Agrees :
      (k : Key) (way : Direction) (s : NativeInputSink E)
      → kind_of k ≡ none
      → Agrees s
      → Agrees (apply_key api k way s).0
  unfolding apply_key
  apply_key-Agrees k way s n h =
      call-keeps Agrees api (api.key k way) (keys_changed k way) s
        (λ e. (
          λ asked. ground (
            arith,
            h.0 asked,
            api.key-taken k way s.enigo asked e,
            in_record-key k way s.current_modifiers s.pressed_keys asked n,
          ),
          λ b. api.key-buttons k way s.enigo b ∙ h.1 b,
        ))
        (λ m e. refused-Agrees k way s m h e)

  pub button_action-Agrees :
      (b : MouseButton) (way : Direction) (s : NativeInputSink E)
      → Agrees s
      → Agrees (button_action api b way s).0
  unfolding button_action
  button_action-Agrees b way s h =
      call-keeps Agrees api (api.button (button_of b) way) (buttons_changed (button_of b) way) s
        (λ e. (
          λ k. api.button-keys (button_of b) way s.enigo k ∙ h.0 k,
          λ asked. ground (
            arith,
            h.1 asked,
            api.button-taken (button_of b) way s.enigo asked e,
            button_same_iff (button_of b) asked,
            has_button-with_button asked (button_of b) s.pressed_buttons,
            has_button-without_button asked (button_of b) s.pressed_buttons,
          ),
        ))
        (λ m e. (
          λ k. api.button-keys (button_of b) way s.enigo k ∙ h.0 k,
          λ asked. api.button-refused (button_of b) way s.enigo asked m e ∙ h.1 asked,
        ))

  sync_modifier-Agrees :
      (desired : Modifiers) (exclude : Option ModifierKind) (kind : ModifierKind)
      (s : NativeInputSink E)
      → Agrees s
      → Agrees (sync_modifier api desired exclude kind s).0
  unfolding sync_modifier
  sync_modifier-Agrees desired exclude kind s h =
      if-keeps Agrees (is_excluded kind exclude) (s, ok tt) _ h
        (if-keeps Agrees
          (not (modifier_from_mask desired kind == modifier_from_mask s.current_modifiers kind)) _
          (s, ok tt) (set_modifier-Agrees kind (modifier_from_mask desired kind) s h) h)

  pub sync_modifiers-Agrees :
      (desired : Modifiers) (exclude : Option ModifierKind) (s : NativeInputSink E)
      → Agrees s
      → Agrees (sync_modifiers api desired exclude s).0
  unfolding sync_modifiers
  sync_modifiers-Agrees desired exclude s h =
      let sync = sync_modifier api desired exclude in
      and_then-keeps Agrees (sync shift s) _ (sync_modifier-Agrees desired exclude shift s h)
        λ s1 h1.
          and_then-keeps Agrees (sync control s1) _
            (sync_modifier-Agrees desired exclude control s1 h1)
            λ s2 h2.
              and_then-keeps Agrees (sync alt s2) _ (sync_modifier-Agrees desired exclude alt s2 h2)
                (sync_modifier-Agrees desired exclude meta)

  apply_named-Agrees :
      (k : Option Key) (way : Direction) (s : NativeInputSink E)
      → (elim k [ none ↦ none | some key ↦ kind_of key ]) ≡ none
      → Agrees s
      → Agrees (apply_named api k way s).0
  unfolding apply_named
  apply_named-Agrees none way s n h = h
  apply_named-Agrees (some k) way s n h = apply_key-Agrees k way s n h

  key_action-Agrees :
      (code : KeyCode) (way : Direction) (s : NativeInputSink E)
      → Agrees s
      → Agrees (key_action api code way s).0
  unfolding key_action
  key_action-Agrees (modifier kind) way s h = set_modifier-Agrees kind (is_press way) s h
  key_action-Agrees (character c) way s h = apply_key-Agrees (unicode c) way s refl h
  key_action-Agrees (named n) way s h = apply_named-Agrees (named_key n) way s (named_key-kind n) h
  key_action-Agrees (unmapped code) way s h = h

  scroll_by-Agrees :
      (n : ℤ) (axis : Axis) (s : NativeInputSink E) → Agrees s → Agrees (scroll_by api n axis s).0
  unfolding scroll_by
  scroll_by-Agrees n axis s h =
      if-keeps Agrees (n == pos 0) (s, ok tt) _ h
        (call-keeps Agrees api (api.scroll n axis) (λ q. q) s
          (λ e. (
            λ k. api.scroll-keys n axis s.enigo k ∙ h.0 k,
            λ b. api.scroll-buttons n axis s.enigo b ∙ h.1 b,
          ))
          (λ m e. (
            λ k. api.scroll-keys n axis s.enigo k ∙ h.0 k,
            λ b. api.scroll-buttons n axis s.enigo b ∙ h.1 b,
          )))

  scroll_wheel-Agrees :
      (dx dy : ℤ) (s : NativeInputSink E) → Agrees s → Agrees (scroll_wheel api dx dy s).0
  unfolding scroll_wheel
  scroll_wheel-Agrees dx dy s h =
      and_then-keeps Agrees (scroll_by api dy vertical s) (scroll_by api dx horizontal)
        (scroll_by-Agrees dy vertical s h) (scroll_by-Agrees dx horizontal)

  move-Agrees :
      (dx dy : ℤ) (s : NativeInputSink E)
      → Agrees s
      → Agrees (call api (api.move_mouse dx dy) (λ q. q) s).0
  move-Agrees dx dy s h =
      call-keeps Agrees api (api.move_mouse dx dy) (λ q. q) s
        (λ e. (
          λ k. api.move-keys dx dy s.enigo k ∙ h.0 k,
          λ b. api.move-buttons dx dy s.enigo b ∙ h.1 b,
        ))
        (λ m e. (
          λ k. api.move-keys dx dy s.enigo k ∙ h.0 k,
          λ b. api.move-buttons dx dy s.enigo b ∙ h.1 b,
        ))

  inject-Agrees : (e : InputEvent) (s : NativeInputSink E) → Agrees s → Agrees (inject api e s).0
  unfolding inject
  inject-Agrees (key_down code m _) s h =
      and_then-keeps Agrees _ _
        (sync_modifiers-Agrees m (modifier_code_for (parse_key_code code)) s h)
        (key_action-Agrees (parse_key_code code) press)
  inject-Agrees (key_up code m _) s h =
      and_then-keeps Agrees _ _
        (sync_modifiers-Agrees m (modifier_code_for (parse_key_code code)) s h)
        (key_action-Agrees (parse_key_code code) release)
  inject-Agrees (mouse_move dx dy m _) s h =
      and_then-keeps Agrees _ _ (sync_modifiers-Agrees m none s h) (move-Agrees dx dy)
  inject-Agrees (mouse_button_down b m _) s h =
      and_then-keeps Agrees _ _ (sync_modifiers-Agrees m none s h) (button_action-Agrees b press)
  inject-Agrees (mouse_button_up b m _) s h =
      and_then-keeps Agrees _ _ (sync_modifiers-Agrees m none s h) (button_action-Agrees b release)
  inject-Agrees (mouse_wheel dx dy m _) s h =
      and_then-keeps Agrees _ _ (sync_modifiers-Agrees m none s h) (scroll_wheel-Agrees dx dy)

  -- Whatever the injector does with an event, failing or not, enigo holds down exactly the keys,
  -- modifiers and buttons that the sink has recorded, if it did before.
  pub handle-Agrees :
      (e : InputEvent) (s : NativeInputSink E) → Agrees s → Agrees (handle_input_event api e s).0
  unfolding handle_input_event
  handle-Agrees e s h = inject-Agrees e (record_loopback e s) h
