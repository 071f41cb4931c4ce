-- ===== src/Input/KeyCode/Equality.antt =====
-- The derived `PartialEq` of `ModifierKind`, `NamedKey` and `KeyCode`, with its law.
use mathlib.Core.Bool.{decide}
use native.Mathlib.Decide.{ℕ_discrete}
use flowkey.Base.{◌≡◌, refl, ◌↔◌, Bool, true, false, arith, eq_iff, Eq, ◌==◌, ℕ_eq, String_eq}
use flowkey.Input.KeyCode.{
  NamedKey, ModifierKind, shift, control, alt, meta, KeyCode, character, modifier, named, unmapped,
}

abbrev pub kind_eq : ModifierKind → ModifierKind → Bool
kind_eq shift shift = true
kind_eq control control = true
kind_eq alt alt = true
kind_eq meta meta = true
kind_eq _ _ = false

pub kind_eq_iff : (a b : ModifierKind) → (kind_eq a b ≡ true) ↔ (a ≡ b)
kind_eq_iff a b = ground arith

instance abbrev pub ModifierKind_eq : Eq ModifierKind
ModifierKind_eq = record { same = kind_eq; same_iff = kind_eq_iff }

NamedKey-discrete : Discrete NamedKey
NamedKey-discrete = hlevel ℕ_discrete

unfoldable pub named_eq : NamedKey → NamedKey → Bool
unfolding NamedKey-discrete ℕ_discrete decide
named_eq a b = decide (NamedKey-discrete a b)

pub named_eq_iff : (a b : NamedKey) → (named_eq a b ≡ true) ↔ (a ≡ b)
unfolding named_eq decide
named_eq_iff a b = elim (NamedKey-discrete a b) as (λ d. (decide d ≡ true) ↔ (a ≡ b)) [
  | yes same ↦ (λ _. same, λ _. refl)
  | no other ↦ (λ e. cc, λ same. absurd (other same))
]

abbrev pub key_eq : KeyCode → KeyCode → Bool
key_eq (character a) (character b) = a == b
key_eq (modifier a) (modifier b) = a == b
key_eq (named a) (named b) = named_eq a b
key_eq (unmapped a) (unmapped b) = a == b
key_eq _ _ = false

pub key_eq_iff : (a b : KeyCode) → (key_eq a b ≡ true) ↔ (a ≡ b)
key_eq_iff (character a) (character b) = ground arith
key_eq_iff (modifier a) (modifier b) = ground (arith, kind_eq_iff a b)
key_eq_iff (named a) (named b) = ground (arith, named_eq_iff a b)
key_eq_iff (unmapped a) (unmapped b) = ground (arith, eq_iff a b)
key_eq_iff _ _ = ground arith

instance abbrev pub KeyCode_eq : Eq KeyCode
KeyCode_eq = record { same = key_eq; same_iff = key_eq_iff }
