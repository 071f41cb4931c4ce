-- ===== src/Input/Event.antt =====
-- crates/flowkey-protocol/src/input.rs: the input events that are captured, sent and injected.
-- A coordinate is an i32, kept as an integer; a timestamp is a u64.
pub mod Matching
use flowkey.Base.{
  ℕ, String, Bool, true, false, ◌≡◌, refl, ◌↔◌, ◌&&◌, arith, eq_iff, Eq, ◌==◌, String_eq, Bool_eq,
}
use flowkey.Base.Int.{ℤ, ℤ_eq}

pub data MouseButton : Type 0 where
  left right middle : MouseButton

pub record Modifiers : Type 0 where
  pub shift : Bool
  pub control : Bool
  pub alt : Bool
  pub meta : Bool

-- `Modifiers::none`, which is also the default.
abbrev pub no_modifiers : Modifiers
no_modifiers = record { shift = false; control = false; alt = false; meta = false }

pub data InputEvent : Type 0 where
  key_down : String → Modifiers → ℕ → InputEvent
  key_up : String → Modifiers → ℕ → InputEvent
  mouse_move : ℤ → ℤ → Modifiers → ℕ → InputEvent
  mouse_button_down : MouseButton → Modifiers → ℕ → InputEvent
  mouse_button_up : MouseButton → Modifiers → ℕ → InputEvent
  mouse_wheel : ℤ → ℤ → Modifiers → ℕ → InputEvent

abbrev pub button_eq : MouseButton → MouseButton → Bool
button_eq left left = true
button_eq right right = true
button_eq middle middle = true
button_eq _ _ = false

pub button_eq_iff : (a b : MouseButton) → (button_eq a b ≡ true) ↔ (a ≡ b)
button_eq_iff a b = ground arith

instance abbrev pub MouseButton_eq : Eq MouseButton
MouseButton_eq = record { same = button_eq; same_iff = button_eq_iff }

abbrev pub modifiers_eq : Modifiers → Modifiers → Bool
modifiers_eq a b =
    a.shift == b.shift && (a.control == b.control && (a.alt == b.alt && a.meta == b.meta))

pub modifiers_eq_iff : (a b : Modifiers) → (modifiers_eq a b ≡ true) ↔ (a ≡ b)
modifiers_eq_iff a b = ground arith

instance abbrev pub Modifiers_eq : Eq Modifiers
Modifiers_eq = record { same = modifiers_eq; same_iff = modifiers_eq_iff }

unfoldable pub matches_ignoring_timestamp : InputEvent → InputEvent → Bool
matches_ignoring_timestamp (key_down c1 m1 _) (key_down c2 m2 _) = c1 == c2 && m1 == m2
matches_ignoring_timestamp (key_up c1 m1 _) (key_up c2 m2 _) = c1 == c2 && m1 == m2
matches_ignoring_timestamp (mouse_move dx1 dy1 m1 _) (mouse_move dx2 dy2 m2 _) =
    dx1 == dx2 && (dy1 == dy2 && m1 == m2)
matches_ignoring_timestamp (mouse_button_down b1 m1 _) (mouse_button_down b2 m2 _) =
    b1 == b2 && m1 == m2
matches_ignoring_timestamp (mouse_button_up b1 m1 _) (mouse_button_up b2 m2 _) =
    b1 == b2 && m1 == m2
matches_ignoring_timestamp (mouse_wheel dx1 dy1 m1 _) (mouse_wheel dx2 dy2 m2 _) =
    dx1 == dx2 && (dy1 == dy2 && m1 == m2)
matches_ignoring_timestamp _ _ = false

unfoldable pub timestamp_us : InputEvent → ℕ
timestamp_us (key_down _ _ t) = t
timestamp_us (key_up _ _ t) = t
timestamp_us (mouse_move _ _ _ t) = t
timestamp_us (mouse_button_down _ _ t) = t
timestamp_us (mouse_button_up _ _ t) = t
timestamp_us (mouse_wheel _ _ _ t) = t
