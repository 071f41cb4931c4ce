-- ===== src/Input/Injector/Taken.antt =====
-- What the sink records when enigo takes every call.
use flowkey.Base.{Bool, Option, Bool_eq, ◌≡◌, refl, arith}
use flowkey.Base.Int.{ℤ_eq}
use flowkey.Base.Result.{ok, err}
use flowkey.Input.Event.{Modifiers}
use flowkey.Input.KeyCode.{ModifierKind, shift, control, alt, meta, modifier_from_mask}
use flowkey.Input.Injector.Keys.{Key, Button, Direction}
use flowkey.Input.Injector.Enigo.{EnigoApi}
use flowkey.Input.Injector.{
  NativeInputSink, call, set_modifier, sync_modifier, sync_modifiers, is_excluded, apply_key,
}
use flowkey.Input.Injector.{Injected, and_then, set_mask, change_keys, set_modifier, apply_key}
use flowkey.Input.Event.{Modifiers}
use flowkey.Base.{arith, if◌then◌else◌, List}

-- The mask after the modifiers were brought into line, but for an excluded one.
abbrev pub synced : Modifiers → Option ModifierKind → Modifiers → Modifiers
synced desired exclude current = record {
  shift = if is_excluded shift exclude then current.shift else desired.shift;
  control = if is_excluded control exclude then current.control else desired.control;
  alt = if is_excluded alt exclude then current.alt else desired.alt;
  meta = if is_excluded meta exclude then current.meta else desired.meta;
}

module _ {E : Type 0} where
  pub and_then-ok :
      (first : Injected E) (next : NativeInputSink E → Injected E)
      → (and_then first next).1 ≡ ok tt
      → (first.1 ≡ ok tt)
        × ((next first.0).1 ≡ ok tt)
        × ((and_then first next).0 ≡ (next first.0).0)
  and_then-ok (s, ok _) next h = (refl, h, refl)
  and_then-ok (s, err m) next h = cc

  -- The sink has this mask, these keys and these buttons.
  abbrev pub Has : Modifiers → List Key → List Button → NativeInputSink E → Type 0
  Has m keys buttons s =
      (s.current_modifiers ≡ m) × (s.pressed_keys ≡ keys) × (s.pressed_buttons ≡ buttons)

module _ {E : Type 0} (api : EnigoApi E) where
  pub set_modifier-ok :
      (kind : ModifierKind) (pressed : Bool) (s : NativeInputSink E)
      → (set_modifier api kind pressed s).1 ≡ ok tt
      → Has
          (set_mask kind pressed s.current_modifiers)
          s.pressed_keys
          s.pressed_buttons
          (set_modifier api kind pressed s).0
  unfolding set_modifier call
  set_modifier-ok kind pressed s h = ground arith

  pub apply_key-ok :
      (k : Key) (way : Direction) (s : NativeInputSink E)
      → (apply_key api k way s).1 ≡ ok tt
      → Has s.current_modifiers
          (change_keys k way s.pressed_keys)
          s.pressed_buttons
          (apply_key api k way s).0
  unfolding apply_key call
  apply_key-ok k way s h = ground arith

  sync_modifier-ok :
      (desired : Modifiers) (exclude : Option ModifierKind) (kind : ModifierKind)
      (s : NativeInputSink E)
      → (sync_modifier api desired exclude kind s).1 ≡ ok tt
      → Has
          (if is_excluded kind exclude
            then s.current_modifiers
            else set_mask kind (modifier_from_mask desired kind) s.current_modifiers)
          s.pressed_keys
          s.pressed_buttons
          (sync_modifier api desired exclude kind s).0
  unfolding sync_modifier modifier_from_mask
  sync_modifier-ok desired exclude kind s h =
      ground (arith, set_modifier-ok kind (modifier_from_mask desired kind) s)

  pub sync_modifiers-ok :
      (desired : Modifiers) (exclude : Option ModifierKind) (s : NativeInputSink E)
      → (sync_modifiers api desired exclude s).1 ≡ ok tt
      → Has
          (synced desired exclude s.current_modifiers)
          s.pressed_keys
          s.pressed_buttons
          (sync_modifiers api desired exclude s).0
  unfolding sync_modifiers modifier_from_mask
  sync_modifiers-ok desired exclude s h =
      let sync = sync_modifier api desired exclude in
      let (h1, rest1, same1) = and_then-ok (sync shift s) _ h in
      let s1 = (sync shift s).0 in
      let (h2, rest2, same2) = and_then-ok (sync control s1) _ rest1 in
      let s2 = (sync control s1).0 in
      let (h3, h4, same3) = and_then-ok (sync alt s2) (sync meta) rest2 in
      let s3 = (sync alt s2).0 in
      ground (
        arith,
        same1,
        same2,
        same3,
        sync_modifier-ok desired exclude shift s h1,
        sync_modifier-ok desired exclude control s1 h2,
        sync_modifier-ok desired exclude alt s2 h3,
        sync_modifier-ok desired exclude meta s3 h4,
      )
