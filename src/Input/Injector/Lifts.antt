-- ===== src/Input/Injector/Lifts.antt =====
-- What the forced release of everything leaves held.
use flowkey.Base.{String, Bool, none, some, Bool_eq, ◌≡◌, refl, arith}
use flowkey.Base.Int.{ℤ_eq}
use flowkey.Base.Result.{ok}
use flowkey.Input.Event.{Modifiers, mouse_button_up}
use flowkey.Input.KeyCode.{ModifierKind, shift, control, alt, meta, modifier_from_mask}
use flowkey.Input.Injector.Keys.{Key, Button, release}
use flowkey.Input.Injector.Enigo.{EnigoApi}
use flowkey.Input.Injector.Keys.{held_modifier}
use flowkey.Input.Injector.Sets.{has_button}
use flowkey.Input.Injector.{NativeInputSink, call, set_modifier, record_loopback}
use flowkey.Base.{◌∙◌}
use flowkey.Input.Injector.Recorded.{kind_of}
use flowkey.Input.KeyCode.Equality.{kind_eq}
use flowkey.Input.Injector.{set_modifier}
use flowkey.Input.Event.{Modifiers}
use flowkey.Base.{true, false, arith, if◌then◌else◌, List}
use flowkey.Input.Injector.Taken.{and_then-ok}
use flowkey.Input.Injector.Holds.{Agrees}
use flowkey.Base.{[], ◌∷◌}
use flowkey.Input.Injector.Enigo.{key_same, key_same_iff}
use flowkey.Input.Injector.Recorded.{in_record, kind_of, kind_of_iff}
use flowkey.Input.Injector.{
  release_keys, release_buttons, release_modifier, release_modifiers, release_all_pressed,
}
use flowkey.Input.Injector.Sets.{has_key, has_button}
use flowkey.Input.Injector.Keys.{button_name, key_release_event}
use flowkey.Input.Event.{no_modifiers}
use flowkey.Base.Result.{Result}
use flowkey.Base.{◌&&◌}

-- The key of a modifier against another key.
modifier_same :
    (kind : ModifierKind) (k : Key)
    → key_same (held_modifier kind) k
      ≡ (elim (kind_of k) [ none ↦ false | some other ↦ kind_eq kind other ])
modifier_same kind k = ground (arith, key_same_iff (held_modifier kind) k, kind_of_iff k kind)

module _ {E : Type 0} (api : EnigoApi E) where
  -- A call that succeeds was accepted by enigo.
  called-ok :
      (run : E → E × Result String (Unit {0})) (s : NativeInputSink E)
      → (call api run (λ q. q) s).1 ≡ ok tt
      → ((run s.enigo).1 ≡ ok tt) × ((call api run (λ q. q) s).0.enigo ≡ (run s.enigo).0)
  unfolding call
  called-ok run s h = ground arith

  release_keys-held :
      (keys : List Key) (s : NativeInputSink E)
      → (release_keys api keys s).1 ≡ ok tt
      → ((k : Key)
          → api.key_held (release_keys api keys s).0.enigo k
            ≡ (if has_key k keys then false else api.key_held s.enigo k))
        × ((b : Button)
            → api.button_held (release_keys api keys s).0.enigo b ≡ api.button_held s.enigo b)
  unfolding release_keys
  release_keys-held [] s h = (λ k. refl, λ b. refl)
  release_keys-held (key ∷ keys) s h =
      let told = record_loopback (key_release_event key s.current_modifiers) s in
      let called = call api (api.key key release) (λ q. q) told in
      let (taken, rest, same) = and_then-ok called (release_keys api keys) h in
      let (held, buttons) = release_keys-held keys called.0 rest in
      let (accepted, enigo) = called-ok (api.key key release) told taken in
      (
        λ k. ground (arith, same, held k, enigo, api.key-taken key release s.enigo k accepted),
        λ b. ground (arith, same, buttons b, enigo, api.key-buttons key release s.enigo b),
      )

  release_buttons-held :
      (pressed : List Button) (s : NativeInputSink E)
      → (release_buttons api pressed s).1 ≡ ok tt
      → ((b : Button)
          → api.button_held (release_buttons api pressed s).0.enigo b
            ≡ (if has_button b pressed then false else api.button_held s.enigo b))
        × ((k : Key)
            → api.key_held (release_buttons api pressed s).0.enigo k ≡ api.key_held s.enigo k)
  unfolding release_buttons
  release_buttons-held [] s h = (λ k. refl, λ b. refl)
  release_buttons-held (button ∷ pressed) s h =
      let told = record_loopback (mouse_button_up (button_name button) s.current_modifiers 0) s in
      let called = call api (api.button button release) (λ q. q) told in
      let (taken, rest, same) = and_then-ok called (release_buttons api pressed) h in
      let (held, keys) = release_buttons-held pressed called.0 rest in
      let (accepted, enigo) = called-ok (api.button button release) told taken in
      (
        λ b.
            ground (arith, same, held b, enigo, api.button-taken button release s.enigo b accepted),
        λ k. ground (arith, same, keys k, enigo, api.button-keys button release s.enigo k),
      )

  release_modifier-held :
      (kind : ModifierKind) (pressed : Bool) (s : NativeInputSink E)
      → (release_modifier api kind pressed s).1 ≡ ok tt
      → ((k : Key)
          → api.key_held (release_modifier api kind pressed s).0.enigo k ≡ (
              if key_same (held_modifier kind) k && pressed then false else api.key_held s.enigo k))
        × ((b : Button)
            → api.button_held (release_modifier api kind pressed s).0.enigo b
              ≡ api.button_held s.enigo b)
  unfolding release_modifier set_modifier call
  release_modifier-held kind false s h = (λ k. ground arith, λ b. refl)
  release_modifier-held kind true s h = (
    λ k. ground (arith, api.key-taken (held_modifier kind) release s.enigo k),
    λ b. ground (arith, api.key-buttons (held_modifier kind) release s.enigo b),
  )

  release_modifiers-held :
      (m : Modifiers) (s : NativeInputSink E)
      → (release_modifiers api m s).1 ≡ ok tt
      → ((k : Key)
          → api.key_held (release_modifiers api m s).0.enigo k
            ≡ (if in_record m [] k then false else api.key_held s.enigo k))
        × ((b : Button)
            → api.button_held (release_modifiers api m s).0.enigo b ≡ api.button_held s.enigo b)
  unfolding release_modifiers modifier_from_mask
  release_modifiers-held m s h =
      let (h1, rest1, same1) = and_then-ok (release_modifier api meta m.meta s) _ h in
      let s1 = (release_modifier api meta m.meta s).0 in
      let (h2, rest2, same2) = and_then-ok (release_modifier api alt m.alt s1) _ rest1 in
      let s2 = (release_modifier api alt m.alt s1).0 in
      let (h3, h4, same3) =
        and_then-ok (release_modifier api control m.control s2) (release_modifier api shift m.shift)
          rest2 in
      let s3 = (release_modifier api control m.control s2).0 in
      let (k1, b1) = release_modifier-held meta m.meta s h1 in
      let (k2, b2) = release_modifier-held alt m.alt s1 h2 in
      let (k3, b3) = release_modifier-held control m.control s2 h3 in
      let (k4, b4) = release_modifier-held shift m.shift s3 h4 in
      (
        λ k. ground (
          arith,
          same1,
          same2,
          same3,
          k1 k,
          k2 k,
          k3 k,
          k4 k,
          modifier_same meta k,
          modifier_same alt k,
          modifier_same control k,
          modifier_same shift k,
        ),
        λ b. ground (arith, same1, same2, same3, b1 b, b2 b, b3 b, b4 b),
      )

  -- If enigo holds what the sink has recorded and the forced release of everything succeeds, then
  -- enigo holds no key, no modifier and no button afterwards, and the sink has none recorded.
  pub release_all_lifts :
      (s : NativeInputSink E)
      → Agrees api s
      → (release_all_pressed api s).1 ≡ ok tt
      → let q = (release_all_pressed api s).0 in
        ((k : Key) → api.key_held q.enigo k ≡ false)
        × ((b : Button) → api.button_held q.enigo b ≡ false)
        × (q.pressed_keys ≡ [])
        × (q.pressed_buttons ≡ [])
        × (q.current_modifiers ≡ no_modifiers)
  unfolding release_all_pressed
  release_all_lifts s h done =
      let (h1, rest1, same1) = and_then-ok (release_keys api s.pressed_keys s) _ done in
      let s1 = (release_keys api s.pressed_keys s).0 in
      let (h2, rest2, same2) = and_then-ok (release_buttons api s.pressed_buttons s1) _ rest1 in
      let s2 = (release_buttons api s.pressed_buttons s1).0 in
      let (h3, rest3, same3) = and_then-ok (release_modifiers api s.current_modifiers s2) _ rest2 in
      let (keys1, buttons1) = release_keys-held s.pressed_keys s h1 in
      let (buttons2, keys2) = release_buttons-held s.pressed_buttons s1 h2 in
      let (keys3, buttons3) = release_modifiers-held s.current_modifiers s2 h3 in
      let same = same1 ∙ same2 ∙ same3 in
      rw same (
        λ k. ground (arith, h.0 k, keys1 k, keys2 k, keys3 k),
        λ b. ground (arith, h.1 b, buttons1 b, buttons2 b, buttons3 b),
        refl,
        refl,
        refl,
      )
