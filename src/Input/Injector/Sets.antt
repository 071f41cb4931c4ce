-- ===== src/Input/Injector/Sets.antt =====
-- The sets of pressed keys and buttons: a list without repetitions, in the order of iteration.
use flowkey.Base.{
  Bool, true, false, List, [], ◌∷◌, ◌++◌, any, Bool_eq, ◌≡◌, ◌↔◌, arith, if◌then◌else◌,
}
use flowkey.Base.Int.{ℤ_eq}
use flowkey.Input.Injector.Keys.{Key, Button}
use flowkey.Input.Injector.Enigo.{key_same, key_same_iff, button_same}

-- `HashSet::insert` and `HashSet::remove`.
abbrev pub has_key : Key → List Key → Bool
has_key k = any λ other. key_same other k

abbrev pub with_key : Key → List Key → List Key
with_key k keys = if has_key k keys then keys else keys ++ k ∷ []

abbrev pub without_key : Key → List Key → List Key
without_key k [] = []
without_key k (other ∷ keys) =
    let rest = without_key k keys in if key_same other k then rest else other ∷ rest

abbrev pub has_button : Button → List Button → Bool
has_button b = any λ other. button_same other b

abbrev pub with_button : Button → List Button → List Button
with_button b buttons = if has_button b buttons then buttons else buttons ++ b ∷ []

abbrev pub without_button : Button → List Button → List Button
without_button b [] = []
without_button b (other ∷ buttons) =
    let rest = without_button b buttons in if button_same other b then rest else other ∷ rest

pub button_same_iff : (a b : Button) → (button_same a b ≡ true) ↔ (a ≡ b)
button_same_iff a b = ground arith

has_key-append :
    (asked k : Key) (keys : List Key)
    → has_key asked (keys ++ k ∷ []) ≡ (if key_same k asked then true else has_key asked keys)
has_key-append asked k [] = ground arith
has_key-append asked k (other ∷ keys) = ground (arith, has_key-append asked k keys)

pub has_key-with_key :
    (asked k : Key) (keys : List Key)
    → has_key asked (with_key k keys) ≡ (if key_same k asked then true else has_key asked keys)
has_key-with_key asked k keys = ground (arith, has_key-append asked k keys, key_same_iff k asked)

pub has_key-without_key :
    (asked k : Key) (keys : List Key)
    → has_key asked (without_key k keys) ≡ (if key_same k asked then false else has_key asked keys)
has_key-without_key asked k [] = ground arith
has_key-without_key asked k (other ∷ keys) = ground (
  arith,
  has_key-without_key asked k keys,
  key_same_iff k asked,
  key_same_iff other k,
  key_same_iff other asked,
)

has_button-append :
    (asked b : Button) (buttons : List Button)
    → has_button asked (buttons ++ b ∷ [])
      ≡ (if button_same b asked then true else has_button asked buttons)
has_button-append asked b [] = ground arith
has_button-append asked b (other ∷ buttons) = ground (arith, has_button-append asked b buttons)

pub has_button-with_button :
    (asked b : Button) (buttons : List Button)
    → has_button asked (with_button b buttons)
      ≡ (if button_same b asked then true else has_button asked buttons)
has_button-with_button asked b buttons =
    ground (arith, has_button-append asked b buttons, button_same_iff b asked)

pub has_button-without_button :
    (asked b : Button) (buttons : List Button)
    → has_button asked (without_button b buttons)
      ≡ (if button_same b asked then false else has_button asked buttons)
has_button-without_button asked b [] = ground arith
has_button-without_button asked b (other ∷ buttons) = ground (
  arith,
  has_button-without_button asked b buttons,
  button_same_iff b asked,
  button_same_iff other b,
  button_same_iff other asked,
)
