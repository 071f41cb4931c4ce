-- ===== src/Input/Capture.antt =====
-- crates/flowkey-input/src/capture.rs: how the events of rdev become signals for the daemon. An
-- event's time is in microseconds from the epoch, and 0 before it.
pub mod Masks
pub mod Echo
pub mod Reach
use flowkey.Base.{ℕ, String, Bool, true, false, ◌||◌, ◌%◌, ◌^◌, Option, none, some, if◌then◌else◌}
use flowkey.Base.Int.{ℤ}
use flowkey.Input.Event.{
  Modifiers, no_modifiers, InputEvent, key_down, key_up, mouse_move, mouse_button_down,
  mouse_button_up, mouse_wheel,
}
use flowkey.Input.Hotkey.{HotkeyTracker, HotkeyOutcome, pressed, suppressed, forward, process}
use flowkey.Input.Loopback.{LoopbackSuppressor, should_suppress}
use flowkey.Input.Normalize.{
  RdevKey, shift_left, shift_right, control_left, control_right, alt, alt_gr, meta_left, meta_right,
  RdevButton, normalize_key_code, normalize_button, FloatApi, normalize_mouse_move_delta,
  normalize_wheel_delta,
}

pub data EventType (F : Type 0) : Type 0 where
  key_press key_release : RdevKey → EventType F
  button_press button_release : RdevButton → EventType F
  mouse_moved wheel : F → F → EventType F

pub record RdevEvent (F : Type 0) : Type 0 where
  pub event_type : EventType F
  pub time : ℕ

pub data CaptureSignal : Type 0 where
  hotkey_pressed hotkey_suppressed : CaptureSignal
  input : InputEvent → CaptureSignal

pub record ModifierTracker : Type 0 where
  pub shift_l : Bool
  pub shift_r : Bool
  pub ctrl_l : Bool
  pub ctrl_r : Bool
  pub alt_l : Bool
  pub alt_r : Bool
  pub meta_l : Bool
  pub meta_r : Bool

abbrev pub no_tracked : ModifierTracker
no_tracked = record {
  shift_l = false;
  shift_r = false;
  ctrl_l = false;
  ctrl_r = false;
  alt_l = false;
  alt_r = false;
  meta_l = false;
  meta_r = false;
}

abbrev pub to_modifiers : ModifierTracker → Modifiers
to_modifiers t = record {
  shift = t.shift_l || t.shift_r;
  control = t.ctrl_l || t.ctrl_r;
  alt = t.alt_l || t.alt_r;
  meta = t.meta_l || t.meta_r;
}

pub record CaptureState (F : Type 0) : Type 0 where
  pub last_mouse_position : Option (F × F)
  pub modifiers : Modifiers
  pub tracker : ModifierTracker

-- `CaptureState::default`.
abbrev pub default_state : {F : Type 0} → CaptureState F
default_state = record {
  last_mouse_position = none;
  modifiers = no_modifiers;
  tracker = no_tracked;
}

abbrev pub track : RdevKey → Bool → ModifierTracker → ModifierTracker
track shift_left down t = record t { shift_l = down }
track shift_right down t = record t { shift_r = down }
track control_left down t = record t { ctrl_l = down }
track control_right down t = record t { ctrl_r = down }
track alt down t = record t { alt_l = down }
track alt_gr down t = record t { alt_r = down }
track meta_left down t = record t { meta_l = down }
track meta_right down t = record t { meta_r = down }
track _ down t = t

abbrev key_event : Bool → String → Modifiers → ℕ → InputEvent
key_event true code m t = key_down code m t
key_event false code m t = key_up code m t

-- The distances of an event, if there are any.
abbrev with_distance :
    (ℤ → ℤ → Modifiers → ℕ → InputEvent) → Option (ℤ × ℤ) → Modifiers → ℕ → Option InputEvent
with_distance make none m t = none
with_distance make (some (dx, dy)) m t = some (make dx dy m t)

module _ {F : Type 0} where
  unfoldable pub sync_physical_modifiers : ModifierTracker → CaptureState F → CaptureState F
  sync_physical_modifiers t s = record s { tracker = t; modifiers = to_modifiers t }

  unfoldable pub clear_modifiers : CaptureState F → CaptureState F
  unfolding sync_physical_modifiers
  clear_modifiers s = sync_physical_modifiers no_tracked s

  -- A key without a code changes nothing.
  translate_coded :
      Option String → RdevKey → Bool → ℕ → CaptureState F → CaptureState F × Option InputEvent
  translate_coded none key down t s = (s, none)
  translate_coded (some code) key down t s =
      let tracked = track key down s.tracker in
      let mask = to_modifiers tracked in
      (record s { tracker = tracked; modifiers = mask }, some (key_event down code mask t))

  unfoldable pub translate_key_event :
      RdevKey → Bool → ℕ → CaptureState F → CaptureState F × Option InputEvent
  unfolding translate_coded
  translate_key_event key down t s = translate_coded (normalize_key_code key) key down t s

  module _ (float : FloatApi F) where
    unfoldable pub translate_type :
        EventType F → ℕ → CaptureState F → CaptureState F × Option InputEvent
    unfolding translate_key_event
    translate_type (key_press key) t s = translate_key_event key true t s
    translate_type (key_release key) t s = translate_key_event key false t s
    translate_type (button_press b) t s =
        (s, some (mouse_button_down (normalize_button b) s.modifiers t))
    translate_type (button_release b) t s =
        (s, some (mouse_button_up (normalize_button b) s.modifiers t))
    translate_type (mouse_moved x y) t s =
        let distance = normalize_mouse_move_delta float s.last_mouse_position x y in
        (
          record s { last_mouse_position = some (x, y) },
          with_distance mouse_move distance s.modifiers t,
        )
    translate_type (wheel delta_x delta_y) t s =
        let distance = normalize_wheel_delta float delta_x delta_y in
        (s, with_distance mouse_wheel distance s.modifiers t)

    unfoldable pub translate_event :
        RdevEvent F → CaptureState F → CaptureState F × Option InputEvent
    unfolding translate_type
    translate_event e s = translate_type e.event_type (e.time % 2 ^ 64) s

-- What a listener works on.
pub record Listener (F : Type 0) : Type 0 where
  pub state : CaptureState F
  pub hotkeys : HotkeyTracker
  pub loopback : Option LoopbackSuppressor

-- The suppressor's answer; `now` and `again` are its readings of the clock.
unfoldable pub asked :
    ℕ → ℕ → InputEvent → Option LoopbackSuppressor → Option LoopbackSuppressor × Bool
asked now again e none = (none, false)
asked now again e (some s) =
    let (suppressor, injected) = should_suppress now again e s in (some suppressor, injected)

abbrev signal_of : HotkeyOutcome → InputEvent → CaptureSignal
signal_of pressed e = hotkey_pressed
signal_of suppressed e = hotkey_suppressed
signal_of forward e = input e

module _ {F : Type 0} where
  unfoldable pub offer : ℕ → ℕ → Option InputEvent → Listener F → Listener F × Option CaptureSignal
  unfolding asked
  offer now again none l = (l, none)
  offer now again (some e) l =
      let (suppressor, injected) = asked now again e l.loopback in
      let heard = record l { loopback = suppressor } in
      let (hotkeys, outcome) = process l.hotkeys e in
      if injected
      then (heard, none)
      else (record heard { hotkeys = hotkeys }, some (signal_of outcome e))

  unfoldable pub translate :
      FloatApi F → RdevEvent F → ℕ → ℕ → Listener F → Listener F × Option CaptureSignal
  unfolding offer
  translate float e now again l =
      let (state, event) = translate_event float e l.state in
      offer now again event (record l { state = state })
