-- ===== src/Input/Injector/Enigo.antt =====
-- enigo as crates/flowkey-input/src/native_injector.rs calls it: a parameter, with the laws of its
-- documentation.
use mathlib.Core.Bool.{decide}
use native.Mathlib.Decide.{ℕ_discrete}
use flowkey.Base.{String, Bool, true, false, Bool_eq, ◌≡◌, refl, ◌↔◌, if◌then◌else◌}
use flowkey.Base.Int.{ℤ, ℤ_eq}
use flowkey.Base.Result.{Result, ok, err}
use flowkey.Input.Injector.Keys.{
  Key, Button, left_button, right_button, middle_button, Direction, press, release,
}

Key-discrete : Discrete Key
Key-discrete = hlevel ℕ_discrete

-- The derived `PartialEq` of enigo's `Key` and `Button`.
unfoldable pub key_same : Key → Key → Bool
unfolding Key-discrete ℕ_discrete decide
key_same a b = decide (Key-discrete a b)

pub key_same_iff : (a b : Key) → (key_same a b ≡ true) ↔ (a ≡ b)
unfolding key_same decide
key_same_iff a b = elim (Key-discrete a b) as (λ d. (decide d ≡ true) ↔ (a ≡ b)) [
  | yes same ↦ (λ _. same, λ _. refl)
  | no other ↦ (λ e. cc, λ same. absurd (other same))
]

abbrev pub button_same : Button → Button → Bool
button_same left_button left_button = true
button_same right_button right_button = true
button_same middle_button middle_button = true
button_same _ _ = false

pub data Axis : Type 0 where
  vertical horizontal : Axis

abbrev pub is_press : Direction → Bool
is_press press = true
is_press release = false

-- enigo, with its `Press` and `Release`. `key_held` is what `Enigo::held` reports: the keys that were
-- pressed by a call that succeeded and not released since; a call that fails changes nothing that is
-- held. enigo keeps no record of buttons: `button_held` stands for the buttons that its calls have put
-- down on the machine, by the same rule, which is an assumption on the platform.
pub record EnigoApi (E : Type 0) : Type 0 where
  pub key : Key → Direction → E → E × Result String (Unit {0})
  pub button : Button → Direction → E → E × Result String (Unit {0})
  pub scroll : ℤ → Axis → E → E × Result String (Unit {0})
  pub move_mouse : ℤ → ℤ → E → E × Result String (Unit {0})
  pub key_held : E → Key → Bool
  pub button_held : E → Button → Bool
  pub key-taken :
      (k : Key) (way : Direction) (e : E) (asked : Key)
      → (key k way e).1 ≡ ok tt
      → key_held (key k way e).0 asked
        ≡ (if key_same k asked then is_press way else key_held e asked)
  pub key-refused :
      (k : Key) (way : Direction) (e : E) (asked : Key) (m : String)
      → (key k way e).1 ≡ err m
      → key_held (key k way e).0 asked ≡ key_held e asked
  pub key-buttons :
      (k : Key) (way : Direction) (e : E) (asked : Button)
      → button_held (key k way e).0 asked ≡ button_held e asked
  pub button-taken :
      (b : Button) (way : Direction) (e : E) (asked : Button)
      → (button b way e).1 ≡ ok tt
      → button_held (button b way e).0 asked
        ≡ (if button_same b asked then is_press way else button_held e asked)
  pub button-refused :
      (b : Button) (way : Direction) (e : E) (asked : Button) (m : String)
      → (button b way e).1 ≡ err m
      → button_held (button b way e).0 asked ≡ button_held e asked
  pub button-keys :
      (b : Button) (way : Direction) (e : E) (asked : Key)
      → key_held (button b way e).0 asked ≡ key_held e asked
  pub scroll-keys :
      (n : ℤ) (axis : Axis) (e : E) (asked : Key)
      → key_held (scroll n axis e).0 asked ≡ key_held e asked
  pub scroll-buttons :
      (n : ℤ) (axis : Axis) (e : E) (asked : Button)
      → button_held (scroll n axis e).0 asked ≡ button_held e asked
  pub move-keys :
      (dx dy : ℤ) (e : E) (asked : Key) → key_held (move_mouse dx dy e).0 asked ≡ key_held e asked
  pub move-buttons :
      (dx dy : ℤ) (e : E) (asked : Button)
      → button_held (move_mouse dx dy e).0 asked ≡ button_held e asked
