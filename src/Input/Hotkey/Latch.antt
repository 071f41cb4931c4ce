-- ===== src/Input/Hotkey/Latch.antt =====
-- When the chord is reported, and what is suppressed.
use flowkey.Base.{
  one_if, ℕ, ◌+◌, ◌*◌, ◌≤◌, ◌≡◌, ◌↔◌, ap, List, [], ◌∷◌, Bool, true, false, arith, if◌then◌else◌,
}
use flowkey.Input.Event.{InputEvent, key_down, key_up}
use flowkey.Input.Hotkey.{
  HotkeyOutcome, pressed, suppressed, HotkeyBinding, HotkeyTracker, component_count, code_matches,
  matches, matches_released_component, process, new_tracker,
}

-- The chord is reported exactly for the key-down of its key, with its modifiers and no others,
-- that finds the latch off: the key repeats of a chord that is held down are not reported.
pub process-pressed_iff :
    (t : HotkeyTracker) (e : InputEvent)
    → ((process t e).1 ≡ pressed) ↔ ((t.latched ≡ false) × (matches t.binding e ≡ true))
unfolding process matches_released_component
process-pressed_iff t (key_down c m _) = ground arith
process-pressed_iff t (key_up c m _) = ground arith
process-pressed_iff t _ = ground arith

-- The tracker waits for no more releases than the chord has keys.
abbrev pub Waits : HotkeyTracker → Type 0
Waits t = t.suppress_remaining ≤ component_count t.binding

process-Waits : (t : HotkeyTracker) (e : InputEvent) → Waits t → Waits (process t e).0
unfolding process
process-Waits t e w = ground arith

abbrev is_pressed : HotkeyOutcome → Bool
is_pressed pressed = true
is_pressed _ = false

abbrev is_suppressed : HotkeyOutcome → Bool
is_suppressed suppressed = true
is_suppressed _ = false

-- The key of the chord was let go.
abbrev lets_go : HotkeyBinding → InputEvent → Bool
lets_go b (key_up code _ _) = code_matches b code
lets_go b _ = false

abbrev is_release : InputEvent → Bool
is_release (key_up _ _ _) = true
is_release _ = false

unfoldable pub track : HotkeyTracker → List InputEvent → HotkeyTracker
track t [] = t
track t (e ∷ es) = track (process t e).0 es

-- How often the chord was reported in a history of events.
pub presses : HotkeyTracker → List InputEvent → ℕ
presses t [] = 0
presses t (e ∷ es) = one_if (is_pressed (process t e).1) + presses (process t e).0 es

pub releases : HotkeyBinding → List InputEvent → ℕ
releases b [] = 0
releases b (e ∷ es) = one_if (lets_go b e) + releases b es

-- How many key releases were kept from being forwarded.
pub suppressed_releases : HotkeyTracker → List InputEvent → ℕ
suppressed_releases t [] = 0
suppressed_releases t (e ∷ es) =
    (if is_release e then one_if (is_suppressed (process t e).1) else 0)
    + suppressed_releases (process t e).0 es

process-binding : (t : HotkeyTracker) (e : InputEvent) → (process t e).0.binding ≡ t.binding
unfolding process
process-binding t (key_down c m _) = ground arith
process-binding t (key_up c m _) = ground arith
process-binding t _ = ground arith

process-latch :
    (t : HotkeyTracker) (e : InputEvent)
    → one_if (is_pressed (process t e).1) + one_if t.latched
      ≤ one_if (lets_go t.binding e) + one_if (process t e).0.latched
unfolding process matches_released_component
process-latch t (key_down c m _) = ground arith
process-latch t (key_up c m _) = ground arith
process-latch t _ = ground arith

process-releases :
    (t : HotkeyTracker) (e : InputEvent)
    → (if is_release e then one_if (is_suppressed (process t e).1) else 0)
        + (process t e).0.suppress_remaining
      ≤ t.suppress_remaining + component_count t.binding * one_if (is_pressed (process t e).1)
unfolding process matches_released_component
process-releases t (key_down c m _) = ground arith
process-releases t (key_up c m _) = ground arith
process-releases t _ = ground arith

presses_from :
    (t : HotkeyTracker) (es : List InputEvent)
    → presses t es + one_if t.latched ≤ releases t.binding es + one_if (track t es).latched
unfolding presses releases track
presses_from t [] = omega arith
presses_from t (e ∷ es) = omega (
  arith,
  process-latch t e,
  presses_from (process t e).0 es,
  ap (λ b. releases b es) (process-binding t e),
)

reported_latches :
    (t : HotkeyTracker) (e : InputEvent)
    → (process t e).1 ≡ pressed
    → (process t e).0.latched ≡ true
unfolding process matches_released_component
reported_latches t (key_down c m _) h = ground arith
reported_latches t (key_up c m _) h = ground arith
reported_latches t _ h = ground arith

-- Between two reports of the chord its key was let go: if a tracker in any state reports the chord
-- at one event, and again at a later one, an event between the two releases the chord's key.
pub let_go_between :
    (t : HotkeyTracker) (first second : InputEvent) (between : List InputEvent)
    → (process t first).1 ≡ pressed
    → (process (track (process t first).0 between) second).1 ≡ pressed
    → 1 ≤ releases t.binding between
let_go_between t first second between h k = ground (
  arith,
  presses_from (process t first).0 between,
  reported_latches t first h,
  ((process-pressed_iff (track (process t first).0 between) second).0 k).0,
  process-binding t first,
)

suppressed_from :
    (t : HotkeyTracker) (es : List InputEvent)
    → suppressed_releases t es ≤ t.suppress_remaining + component_count t.binding * presses t es
unfolding suppressed_releases presses
suppressed_from t [] = omega arith
suppressed_from t (e ∷ es) = omega (
  arith,
  process-releases t e,
  suppressed_from (process t e).0 es,
  ap (λ b. component_count b * presses (process t e).0 es) (process-binding t e),
)

-- The tracker takes no more from the remote side than the chord: in any history of a new tracker
-- the key releases that it suppresses are at most as many as the chord has keys, for each report.
pub suppressed_releases_bound :
    (b : HotkeyBinding) (es : List InputEvent)
    → suppressed_releases (new_tracker b) es ≤ component_count b * presses (new_tracker b) es
unfolding new_tracker
suppressed_releases_bound b es = omega (arith, suppressed_from (new_tracker b) es)

track_from-Waits : (t : HotkeyTracker) (es : List InputEvent) → Waits t → Waits (track t es)
unfolding track
track_from-Waits t [] w = w
track_from-Waits t (e ∷ es) w = track_from-Waits (process t e).0 es (process-Waits t e w)

-- After any history a new tracker waits for at most as many releases as its chord has keys.
pub track-Waits : (b : HotkeyBinding) (es : List InputEvent) → Waits (track (new_tracker b) es)
track-Waits b es = track_from-Waits (new_tracker b) es (unfold new_tracker in omega arith)
