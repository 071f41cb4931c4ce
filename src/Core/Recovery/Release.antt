-- ===== src/Core/Recovery/Release.antt =====
-- What the forced release sends to the sink.
use flowkey.Base.{
  ℕ, ◌+◌, ◌≡◌, refl, String_eq, String, List, [], ◌∷◌, ◌++◌, map, reverse, length, arith,
}
use flowkey.Input.Event.{Modifiers, InputEvent, key_up, mouse_button_up, MouseButton}
use flowkey.Input.Sink.{InputEventSink}
use flowkey.Core.Recovery.{
  HeldKeyTracker, no_held, keys_of, buttons_of, modifiers_for_key_release, release_keys,
  release_buttons, release_all,
}

unfoldable pub key_releases : HeldKeyTracker → List String → List InputEvent
key_releases t = map λ code. key_up code (modifiers_for_key_release t code) 0

unfoldable pub button_releases : Modifiers → List MouseButton → List InputEvent
button_releases mask = map λ b. mouse_button_up b mask 0

-- The mask of the last key that is released, or the tracker's if it holds no key.
unfoldable pub last_mask : HeldKeyTracker → List String → Modifiers → Modifiers
last_mask t [] mask = mask
last_mask t (code ∷ codes) mask = last_mask t codes (modifiers_for_key_release t code)

-- The releases, the last input that was pressed first, the keys in front of the buttons.
unfoldable pub forced_events : HeldKeyTracker → List InputEvent
forced_events t =
    let held = reverse t.held_inputs in
    key_releases t (keys_of held)
    ++ button_releases (last_mask t (keys_of held) t.modifiers) (buttons_of held)

module _ {S : Type 0} (sink : InputEventSink S) where
  -- The sink after the events, whatever errors it reports.
  unfoldable pub feed : List InputEvent → S → S
  feed [] s = s
  feed (e ∷ es) s = feed es (sink.handle e s).0

  feed-append : (xs ys : List InputEvent) (s : S) → feed (xs ++ ys) s ≡ feed ys (feed xs s)
  unfolding feed
  feed-append [] ys s = refl
  feed-append (x ∷ xs) ys s = feed-append xs ys (sink.handle x s).0

  release_keys-feed :
      (t : HeldKeyTracker) (codes : List String) (mask : Modifiers) (s : S) (n : ℕ)
      → release_keys sink t codes mask s n
        ≡ (last_mask t codes mask, feed (key_releases t codes) s, length codes + n)
  unfolding release_keys key_releases last_mask feed
  release_keys-feed t [] mask s n = ground arith
  release_keys-feed t (code ∷ codes) mask s n = ground (
    arith,
    release_keys-feed t codes (modifiers_for_key_release t code)
        (sink.handle (key_up code (modifiers_for_key_release t code) 0) s).0 (n + 1),
  )

  release_buttons-feed :
      (mask : Modifiers) (buttons : List MouseButton) (s : S) (n : ℕ)
      → release_buttons sink mask buttons s n
        ≡ (feed (button_releases mask buttons) s, length buttons + n)
  unfolding release_buttons button_releases feed
  release_buttons-feed mask [] s n = ground arith
  release_buttons-feed mask (b ∷ buttons) s n = ground (
    arith,
    release_buttons-feed mask buttons (sink.handle (mouse_button_up b mask 0) s).0 (n + 1),
  )

  -- The forced release clears the tracker, gives the sink the releases of what was held, the last
  -- pressed first and the keys in front of the buttons, whatever errors the sink reports, and
  -- counts the keys and the buttons.
  pub release_all-feed :
      (t : HeldKeyTracker) (s : S)
      → release_all sink t s ≡ (
        no_held,
        feed (forced_events t) s,
        record {
          forced_key_releases = length (keys_of (reverse t.held_inputs));
          forced_button_releases = length (buttons_of (reverse t.held_inputs));
        },
      )
  unfolding release_all forced_events
  release_all-feed t s =
      let held = reverse t.held_inputs in
      let mask = last_mask t (keys_of held) t.modifiers in
      rw
        (
          release_keys-feed t (keys_of held) t.modifiers s 0,
          release_buttons-feed mask (buttons_of held) (feed (key_releases t (keys_of held)) s) 0,
          feed-append (key_releases t (keys_of held)) (button_releases mask (buttons_of held)) s,
        )
        (ground arith)
