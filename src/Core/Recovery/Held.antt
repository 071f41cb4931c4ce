-- ===== src/Core/Recovery/Held.antt =====
-- What the tracker holds after a history of events.
use flowkey.Base.{
  ◌≡◌, refl, ◌∙◌, ap, Bool, true, false, not, ◌&&◌, ◌||◌, List, [], ◌∷◌, ◌++◌, remove_first, Option,
  none, some, arith, if◌then◌else◌,
}
use flowkey.Input.Event.{
  Modifiers, InputEvent, key_down, key_up, mouse_button_down, mouse_button_up,
}
use flowkey.Input.KeyCode.{
  KeyCode, modifier, ModifierKind, shift, parse_key_code, modifier_from_mask,
}
use flowkey.Input.KeyCode.Equality.{ModifierKind_eq, kind_eq}
use flowkey.Core.Recovery.{
  HeldInput, key, button, HeldKeyTracker, no_held, held_eq, held_eq_iff, contains, hold, release,
  observe, after_key, with_modifier,
}

unfoldable pub observe_all : List InputEvent → HeldKeyTracker → HeldKeyTracker
observe_all [] t = t
observe_all (e ∷ es) t = observe_all es (observe e t)

-- What the event presses (true) or lets go.
abbrev pub touched : InputEvent → Option (HeldInput × Bool)
touched (key_down c _ _) = some (key c, true)
touched (key_up c _ _) = some (key c, false)
touched (mouse_button_down b _ _) = some (button b, true)
touched (mouse_button_up b _ _) = some (button b, false)
touched _ = none

abbrev down_after : HeldInput → Option (HeldInput × Bool) → Bool → Bool
down_after h none before = before
down_after h (some (other, pressed)) before = if held_eq other h then pressed else before

-- Is the input down after the events? The last event that touches it decides.
pub is_down : HeldInput → List InputEvent → Bool → Bool
is_down h [] before = before
is_down h (e ∷ es) before = is_down h es (down_after h (touched e) before)

-- No input is held twice.
abbrev pub Distinct : List HeldInput → Type 0
Distinct [] = Unit
Distinct (x ∷ xs) = (contains x xs ≡ false) × Distinct xs

contains-snoc :
    (h x : HeldInput) (xs : List HeldInput)
    → contains h (xs ++ x ∷ []) ≡ (contains h xs || held_eq x h)
contains-snoc h x [] = ground arith
contains-snoc h x (y ∷ ys) = ground (arith, contains-snoc h x ys)

held_eq_same : (a b c : HeldInput) → held_eq a b ≡ true → held_eq a c ≡ held_eq b c
held_eq_same a b c e = ap (λ x. held_eq x c) ((held_eq_iff a b).0 e)

Distinct-snoc :
    (x : HeldInput) (xs : List HeldInput)
    → Distinct xs
    → contains x xs ≡ false
    → Distinct (xs ++ x ∷ [])
Distinct-snoc x [] d c = (refl, tt)
Distinct-snoc x (y ∷ ys) d c =
    ground (arith, contains-snoc y x ys, Distinct-snoc x ys d.1, held_eq_iff x y, held_eq_iff y x)

contains-remove :
    (h x : HeldInput) (xs : List HeldInput)
    → Distinct xs
    → contains h (remove_first (λ other. held_eq other x) xs) ≡ (contains h xs && not (held_eq x h))
contains-remove h x [] d = refl
contains-remove h x (y ∷ ys) d =
    ground (arith, contains-remove h x ys d.1, held_eq_iff y x, held_eq_iff y h, held_eq_iff x h)

Distinct-remove :
    (x : HeldInput) (xs : List HeldInput)
    → Distinct xs
    → Distinct (remove_first (λ other. held_eq other x) xs)
Distinct-remove x [] d = tt
Distinct-remove x (y ∷ ys) d = ground (arith, contains-remove y x ys d.1, Distinct-remove x ys d.1)

hold-held :
    (h x : HeldInput) (t : HeldKeyTracker)
    → contains h (hold x t).held_inputs ≡ (if held_eq x h then true else contains h t.held_inputs)
unfolding hold
hold-held h x t = ground (arith, contains-snoc h x t.held_inputs, held_eq_iff x h)

release-held :
    (h x : HeldInput) (t : HeldKeyTracker)
    → Distinct t.held_inputs
    → contains h (release x t).held_inputs
      ≡ (if held_eq x h then false else contains h t.held_inputs)
unfolding release
release-held h x t d = ground (arith, contains-remove h x t.held_inputs d)

hold-Distinct :
    (x : HeldInput) (t : HeldKeyTracker) → Distinct t.held_inputs → Distinct (hold x t).held_inputs
unfolding hold
hold-Distinct x t d = ground (arith, Distinct-snoc x t.held_inputs d)

release-Distinct :
    (x : HeldInput) (t : HeldKeyTracker)
    → Distinct t.held_inputs
    → Distinct (release x t).held_inputs
unfolding release
release-Distinct x t d = Distinct-remove x t.held_inputs d

observe-held :
    (h : HeldInput) (e : InputEvent) (t : HeldKeyTracker)
    → Distinct t.held_inputs
    → contains h (observe e t).held_inputs ≡ down_after h (touched e) (contains h t.held_inputs)
unfolding observe
observe-held h (key_down c _ _) t d = hold-held h (key c) t
observe-held h (key_up c _ _) t d = release-held h (key c) t d
observe-held h (mouse_button_down b _ _) t d = hold-held h (button b) t
observe-held h (mouse_button_up b _ _) t d = release-held h (button b) t d
observe-held h _ t d = refl

observe-Distinct :
    (e : InputEvent) (t : HeldKeyTracker)
    → Distinct t.held_inputs
    → Distinct (observe e t).held_inputs
unfolding observe
observe-Distinct (key_down c _ _) t d = hold-Distinct (key c) t d
observe-Distinct (key_up c _ _) t d = release-Distinct (key c) t d
observe-Distinct (mouse_button_down b _ _) t d = hold-Distinct (button b) t d
observe-Distinct (mouse_button_up b _ _) t d = release-Distinct (button b) t d
observe-Distinct _ t d = d

observe_from-Distinct :
    (es : List InputEvent) (t : HeldKeyTracker)
    → Distinct t.held_inputs
    → Distinct (observe_all es t).held_inputs
unfolding observe_all
observe_from-Distinct [] t d = d
observe_from-Distinct (e ∷ es) t d = observe_from-Distinct es (observe e t) (observe-Distinct e t d)

pub observe_all-Distinct : (es : List InputEvent) → Distinct (observe_all es no_held).held_inputs
observe_all-Distinct es = observe_from-Distinct es no_held tt

observe_from-is_down :
    (h : HeldInput) (es : List InputEvent) (t : HeldKeyTracker)
    → Distinct t.held_inputs
    → contains h (observe_all es t).held_inputs ≡ is_down h es (contains h t.held_inputs)
unfolding observe_all is_down
observe_from-is_down h [] t d = refl
observe_from-is_down h (e ∷ es) t d =
    observe_from-is_down h es (observe e t) (observe-Distinct e t d)
    ∙ ap (is_down h es) (observe-held h e t d)

-- After any history of events the tracker holds an input exactly if the last event that touches it
-- pressed it.
pub observe_all-is_down :
    (h : HeldInput) (es : List InputEvent)
    → contains h (observe_all es no_held).held_inputs ≡ is_down h es false
observe_all-is_down h es = observe_from-is_down h es no_held tt

-- Is the modifier set after the events? The last event of one of its keys decides.
abbrev mask_after : ModifierKind → KeyCode → Bool → Bool → Bool
mask_after kind (modifier k) pressed before = if kind_eq k kind then pressed else before
mask_after kind _ pressed before = before

abbrev mask_step : ModifierKind → InputEvent → Bool → Bool
mask_step kind (key_down c _ _) before = mask_after kind (parse_key_code c) true before
mask_step kind (key_up c _ _) before = mask_after kind (parse_key_code c) false before
mask_step kind _ before = before

pub is_set : ModifierKind → List InputEvent → Bool → Bool
is_set kind [] before = before
is_set kind (e ∷ es) before = is_set kind es (mask_step kind e before)

with_modifier-mask :
    (kind k : ModifierKind) (pressed : Bool) (m : Modifiers)
    → modifier_from_mask (with_modifier k pressed m) kind
      ≡ (if kind_eq k kind then pressed else modifier_from_mask m kind)
unfolding modifier_from_mask
with_modifier-mask kind k pressed m = ground arith

after_key-mask :
    (kind : ModifierKind) (k : KeyCode) (pressed : Bool) (m : Modifiers)
    → modifier_from_mask (after_key k pressed m) kind
      ≡ mask_after kind k pressed (modifier_from_mask m kind)
after_key-mask kind (modifier k) pressed m = with_modifier-mask kind k pressed m
after_key-mask kind _ pressed m = refl

hold-modifiers : (x : HeldInput) (t : HeldKeyTracker) → (hold x t).modifiers ≡ t.modifiers
unfolding hold
hold-modifiers x t = ground arith

observe-mask :
    (kind : ModifierKind) (e : InputEvent) (t : HeldKeyTracker)
    → modifier_from_mask (observe e t).modifiers kind
      ≡ mask_step kind e (modifier_from_mask t.modifiers kind)
unfolding observe
observe-mask kind (key_down c _ _) t =
    after_key-mask kind (parse_key_code c) true (hold (key c) t).modifiers
    ∙ ap (mask_after kind (parse_key_code c) true)
        (ap (λ m. modifier_from_mask m kind) (hold-modifiers (key c) t))
observe-mask kind (key_up c _ _) t = after_key-mask kind (parse_key_code c) false t.modifiers
observe-mask kind (mouse_button_down b _ _) t =
    ap (λ m. modifier_from_mask m kind) (hold-modifiers (button b) t)
observe-mask kind _ t = refl

observe_from-is_set :
    (kind : ModifierKind) (es : List InputEvent) (t : HeldKeyTracker)
    → modifier_from_mask (observe_all es t).modifiers kind
      ≡ is_set kind es (modifier_from_mask t.modifiers kind)
unfolding observe_all is_set
observe_from-is_set kind [] t = refl
observe_from-is_set kind (e ∷ es) t =
    observe_from-is_set kind es (observe e t) ∙ ap (is_set kind es) (observe-mask kind e t)

none_set : (kind : ModifierKind) → modifier_from_mask no_held.modifiers kind ≡ false
unfolding modifier_from_mask
none_set shift = refl
none_set _ = refl

-- After any history of events the tracker's mask has a modifier exactly if the last event of a key
-- of that modifier, the left or the right one, pressed it.
pub observe_all-is_set :
    (kind : ModifierKind) (es : List InputEvent)
    → modifier_from_mask (observe_all es no_held).modifiers kind ≡ is_set kind es false
observe_all-is_set kind es =
    observe_from-is_set kind es no_held ∙ ap (is_set kind es) (none_set kind)
