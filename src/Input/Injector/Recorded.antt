-- ===== src/Input/Injector/Recorded.antt =====
-- What a sink has recorded as held down, and what a chain of calls keeps.
use flowkey.Base.{
  String, Bool, true, false, Option, none, some, List, Bool_eq, ◌≡◌, refl, ◌↔◌, arith,
  if◌then◌else◌,
}
use flowkey.Base.Int.{ℤ_eq}
use flowkey.Base.Result.{Result, ok, err}
use flowkey.Input.Event.{Modifiers}
use flowkey.Input.KeyCode.{ModifierKind, modifier_from_mask}
use flowkey.Input.Injector.Keys.{Key, Direction}
use flowkey.Input.Injector.Enigo.{EnigoApi}
use flowkey.Input.Injector.Enigo.{key_same, key_same_iff, is_press}
use flowkey.Input.Injector.Keys.{held_modifier}
use flowkey.Input.Injector.Sets.{has_key, has_key-with_key, has_key-without_key}
use flowkey.Input.Injector.{
  NativeInputSink, Injected, and_then, after_call, call, change_keys, set_mask,
}
use flowkey.Base.{◌⊎◌, inl, inr}

pub Result-cases {ℓ κ} :
    {E : Type ℓ} {A : Type κ} (r : Result E A) → ((a : A) × (r ≡ ok a)) ⊎ ((e : E) × (r ≡ err e))
Result-cases (ok a) = inl (a, refl)
Result-cases (err e) = inr (e, refl)

module _ {E : Type 0} (P : NativeInputSink E → Type 0) where
  pub and_then-keeps :
      (first : Injected E) (next : NativeInputSink E → Injected E)
      → P first.0
      → ((s : NativeInputSink E) → P s → P (next s).0)
      → P (and_then first next).0
  and_then-keeps (s, ok _) next h keep = keep s h
  and_then-keeps (s, err m) next h keep = h

  pub if-keeps :
      (c : Bool) (one other : Injected E) → P one.0 → P other.0 → P (if c then one else other).0
  if-keeps true one other h k = h
  if-keeps false one other h k = k

  after_call-keeps :
      (after : NativeInputSink E → NativeInputSink E) (s : NativeInputSink E)
      (answer : Result String (Unit {0}))
      → (answer ≡ ok tt → P (after s))
      → ((m : String) → answer ≡ err m → P s)
      → P (after_call after s answer).0
  after_call-keeps after s (ok _) h k = h refl
  after_call-keeps after s (err m) h k = k m refl

  pub call-keeps :
      (api : EnigoApi E) (run : E → E × Result String (Unit {0}))
      (after : NativeInputSink E → NativeInputSink E) (s : NativeInputSink E)
      → ((run s.enigo).1 ≡ ok tt → P (after (record s { enigo = (run s.enigo).0 })))
      → ((m : String) → (run s.enigo).1 ≡ err m → P (record s { enigo = (run s.enigo).0 }))
      → P (call api run after s).0
  unfolding call
  call-keeps api run after s h k =
      after_call-keeps after (record s { enigo = (run s.enigo).0 }) (run s.enigo).1 h k

-- The kind of a modifier's key.
abbrev pub kind_of : Key → Option ModifierKind
kind_of (held_modifier kind) = some kind
kind_of _ = none

pub kind_of_iff :
    (k : Key) (kind : ModifierKind) → (kind_of k ≡ some kind) ↔ (k ≡ held_modifier kind)
kind_of_iff k kind = ground arith

-- What a set of keys and a mask say of a key.
abbrev pub in_record : Modifiers → List Key → Key → Bool
in_record m keys k = elim (kind_of k) [
  | some kind ↦ modifier_from_mask m kind
  | none ↦ has_key k keys
]

-- Does the sink have the key recorded as down?
abbrev pub recorded : {E : Type 0} → NativeInputSink E → Key → Bool
recorded s = in_record s.current_modifiers s.pressed_keys

pub in_record-modifier :
    (kind : ModifierKind) (pressed : Bool) (m : Modifiers) (keys : List Key) (k : Key)
    → in_record (set_mask kind pressed m) keys k
      ≡ (if key_same (held_modifier kind) k then pressed else in_record m keys k)
unfolding modifier_from_mask
in_record-modifier kind pressed m keys k =
    ground (arith, key_same_iff (held_modifier kind) k, kind_of_iff k kind)

pub in_record-key :
    (pressed : Key) (way : Direction) (m : Modifiers) (keys : List Key) (k : Key)
    → kind_of pressed ≡ none
    → in_record m (change_keys pressed way keys) k
      ≡ (if key_same pressed k then is_press way else in_record m keys k)
in_record-key pressed way m keys k h = ground (
  arith,
  h,
  key_same_iff pressed k,
  has_key-with_key k pressed keys,
  has_key-without_key k pressed keys,
)
