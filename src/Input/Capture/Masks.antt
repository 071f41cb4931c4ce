-- ===== src/Input/Capture/Masks.antt =====
-- The mask of a captured event against the keys that are physically down.
use mathlib.Core.Bool.{decide}
use flowkey.Base.{
  ℕ, ◌%◌, ◌^◌, Bool, true, false, ◌||◌, none, List, [], ◌∷◌, ◌≡◌, refl, ap, ◌∙◌, arith,
  if◌then◌else◌,
}
use flowkey.Input.Normalize.{
  RdevKey, shift_left, shift_right, control_left, control_right, alt, alt_gr, meta_left, meta_right,
  normalize_key_code, FloatApi,
}
use flowkey.Input.Capture.{
  EventType, key_press, key_release, button_press, button_release, mouse_moved, wheel, RdevEvent,
  ModifierTracker, no_tracked, to_modifiers, track, CaptureState, default_state,
  translate_key_event, translate_event, translate_type,
}

RdevKey-discrete : Discrete RdevKey
RdevKey-discrete = hlevel

rdev_same : RdevKey → RdevKey → Bool
unfolding RdevKey-discrete decide
rdev_same a b = decide (RdevKey-discrete a b)

-- Is the key down after what happened, given whether it was before?
module _ {F : Type 0} where
  abbrev down_after : RdevKey → EventType F → Bool → Bool
  down_after key (key_press k) before = if rdev_same k key then true else before
  down_after key (key_release k) before = if rdev_same k key then false else before
  down_after key _ before = before

  pub is_down : RdevKey → List (RdevEvent F) → Bool → Bool
  is_down key [] before = before
  is_down key (e ∷ es) before = is_down key es (down_after key e.event_type before)

  -- What the capture makes of a history of events.
  pub capture_all : FloatApi F → List (RdevEvent F) → CaptureState F → CaptureState F
  capture_all float [] s = s
  capture_all float (e ∷ es) s = capture_all float es (translate_event float e s).0

-- One side of a modifier: its key, and where it is tracked.
record Side : Type 0 where
  key : RdevKey
  tracked : ModifierTracker → Bool
  track-tracked :
      (k : RdevKey) (down : Bool) (t : ModifierTracker)
      → tracked (track k down t) ≡ (if rdev_same k key then down else tracked t)
  uncoded : (k : RdevKey) → normalize_key_code k ≡ none → rdev_same k key ≡ false
  untracked : tracked no_tracked ≡ false

shift_l_side : Side
unfolding rdev_same decide normalize_key_code
shift_l_side = record {
  key = shift_left;
  tracked = λ t. t.shift_l;
  track-tracked = λ k down t. ground arith;
  uncoded = λ k h. ground arith;
  untracked = refl;
}

shift_r_side : Side
unfolding rdev_same decide normalize_key_code
shift_r_side = record {
  key = shift_right;
  tracked = λ t. t.shift_r;
  track-tracked = λ k down t. ground arith;
  uncoded = λ k h. ground arith;
  untracked = refl;
}

ctrl_l_side : Side
unfolding rdev_same decide normalize_key_code
ctrl_l_side = record {
  key = control_left;
  tracked = λ t. t.ctrl_l;
  track-tracked = λ k down t. ground arith;
  uncoded = λ k h. ground arith;
  untracked = refl;
}

ctrl_r_side : Side
unfolding rdev_same decide normalize_key_code
ctrl_r_side = record {
  key = control_right;
  tracked = λ t. t.ctrl_r;
  track-tracked = λ k down t. ground arith;
  uncoded = λ k h. ground arith;
  untracked = refl;
}

alt_l_side : Side
unfolding rdev_same decide normalize_key_code
alt_l_side = record {
  key = alt;
  tracked = λ t. t.alt_l;
  track-tracked = λ k down t. ground arith;
  uncoded = λ k h. ground arith;
  untracked = refl;
}

alt_r_side : Side
unfolding rdev_same decide normalize_key_code
alt_r_side = record {
  key = alt_gr;
  tracked = λ t. t.alt_r;
  track-tracked = λ k down t. ground arith;
  uncoded = λ k h. ground arith;
  untracked = refl;
}

meta_l_side : Side
unfolding rdev_same decide normalize_key_code
meta_l_side = record {
  key = meta_left;
  tracked = λ t. t.meta_l;
  track-tracked = λ k down t. ground arith;
  uncoded = λ k h. ground arith;
  untracked = refl;
}

meta_r_side : Side
unfolding rdev_same decide normalize_key_code
meta_r_side = record {
  key = meta_right;
  tracked = λ t. t.meta_r;
  track-tracked = λ k down t. ground arith;
  uncoded = λ k h. ground arith;
  untracked = refl;
}

module _ {F : Type 0} (float : FloatApi F) where
  coded-tracked :
      (side : Side) (k : RdevKey) (down : Bool) (t : ℕ) (s : CaptureState F)
      → side.tracked (translate_key_event k down t s).0.tracker
        ≡ (if rdev_same k side.key then down else side.tracked s.tracker)
  unfolding translate_key_event
  coded-tracked side k down t s =
      ground (arith, side.track-tracked k down s.tracker, side.uncoded k)

  type-tracked :
      (side : Side) (type : EventType F) (t : ℕ) (s : CaptureState F)
      → side.tracked (translate_type float type t s).0.tracker
        ≡ down_after side.key type (side.tracked s.tracker)
  unfolding translate_type
  type-tracked side (key_press k) t s = coded-tracked side k true t s
  type-tracked side (key_release k) t s = coded-tracked side k false t s
  type-tracked side (button_press b) t s = refl
  type-tracked side (button_release b) t s = refl
  type-tracked side (mouse_moved x y) t s = refl
  type-tracked side (wheel x y) t s = refl

  all-tracked :
      (side : Side) (es : List (RdevEvent F)) (s : CaptureState F)
      → side.tracked (capture_all float es s).tracker ≡ is_down side.key es (side.tracked s.tracker)
  unfolding capture_all is_down translate_event
  all-tracked side [] s = refl
  all-tracked side (e ∷ es) s =
      all-tracked side es (translate_event float e s).0
      ∙ ap (is_down side.key es) (type-tracked side e.event_type (e.time % 2 ^ 64) s)

  -- The mask is that of the tracked keys.
  Masked : CaptureState F → Type 0
  Masked s = s.modifiers ≡ to_modifiers s.tracker

  coded-Masked :
      (k : RdevKey) (down : Bool) (t : ℕ) (s : CaptureState F)
      → Masked s
      → Masked (translate_key_event k down t s).0
  unfolding Masked translate_key_event
  coded-Masked k down t s h = ground (arith, h)

  type-Masked :
      (type : EventType F) (t : ℕ) (s : CaptureState F)
      → Masked s
      → Masked (translate_type float type t s).0
  unfolding Masked translate_type
  type-Masked (key_press k) t s h = coded-Masked k true t s h
  type-Masked (key_release k) t s h = coded-Masked k false t s h
  type-Masked (button_press b) t s h = h
  type-Masked (button_release b) t s h = h
  type-Masked (mouse_moved x y) t s h = h
  type-Masked (wheel x y) t s h = h

  all-Masked :
      (es : List (RdevEvent F)) (s : CaptureState F) → Masked s → Masked (capture_all float es s)
  unfolding capture_all translate_event
  all-Masked [] s h = h
  all-Masked (e ∷ es) s h =
      all-Masked es (translate_event float e s).0 (type-Masked e.event_type (e.time % 2 ^ 64) s h)

  -- After any history of events of rdev the mask of the capture has a modifier exactly if the left
  -- or the right key of it is down, by the last event of that key.
  pub capture_all-modifiers :
      (es : List (RdevEvent F))
      → (capture_all float es default_state).modifiers ≡ record {
        shift = is_down shift_left es false || is_down shift_right es false;
        control = is_down control_left es false || is_down control_right es false;
        alt = is_down alt es false || is_down alt_gr es false;
        meta = is_down meta_left es false || is_down meta_right es false;
      }
  unfolding Masked shift_l_side shift_r_side ctrl_l_side ctrl_r_side alt_l_side alt_r_side
      meta_l_side meta_r_side
  capture_all-modifiers es =
      let s = capture_all float es default_state in
      ground (
        arith,
        all-Masked es default_state refl,
        all-tracked shift_l_side es default_state,
        all-tracked shift_r_side es default_state,
        all-tracked ctrl_l_side es default_state,
        all-tracked ctrl_r_side es default_state,
        all-tracked alt_l_side es default_state,
        all-tracked alt_r_side es default_state,
        all-tracked meta_l_side es default_state,
        all-tracked meta_r_side es default_state,
      )
