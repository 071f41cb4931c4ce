-- ===== src/Base/Text.antt =====
-- Texts: their code points, joining and splitting them, and `u8::from_str`.
use Prim.Native.Char.{Char, code}
use Prim.Native.Nat.{ℕ, ◌+◌, ◌-◌, ◌*◌}
use Prim.Native.String.{String}
use mathlib.Core.Path.{◌≡◌, refl}
use mathlib.Core.Bool.{Bool, true, not, ◌&&◌}
use mathlib.Core.Option.{Option, none, some}
use mathlib.Core.List.{List, [], ◌∷◌}
use mathlib.Core.Logic.{inl, inr}
use native.Mathlib.Omega.{arith}
use flowkey.Base.Tests.{ltb, leb, nat_eq, nat_eq_iff, Bool-cases, if◌then◌else◌}

abbrev pub codes : String → List ℕ
codes String.[] = []
codes (String.◌∷◌ c s) = code c ∷ codes s

abbrev is_digit : ℕ → Bool
is_digit c = leb b'0' c && leb c b'9'

-- The digits behind `value`, with the overflow check of a u8.
digits_u8 : ℕ → List ℕ → Option ℕ
digits_u8 value [] = some value
digits_u8 value (c ∷ cs) =
    let rest = digits_u8 (value * 10 + (c - b'0')) cs in
    if is_digit c && ltb (value * 10 + (c - b'0')) 256 then rest else none

unsigned_u8 : List ℕ → Option ℕ
unfolding digits_u8
unsigned_u8 [] = none
unsigned_u8 (c ∷ cs) = digits_u8 0 (c ∷ cs)

-- `parse::<u8>`: a plus sign may stand in front of the digits.
unfoldable pub parse_u8 : List ℕ → Option ℕ
unfolding unsigned_u8
parse_u8 [] = none
parse_u8 (c ∷ cs) = if nat_eq c b'+' then unsigned_u8 cs else unsigned_u8 (c ∷ cs)

abbrev pub append : String → String → String
append String.[] t = t
append (String.◌∷◌ c s) t = String.◌∷◌ c (append s t)

-- A character in front of the first of the parts.
abbrev onto_first : Char → List String → List String
onto_first c [] = String.◌∷◌ c String.[] ∷ []
onto_first c (part ∷ parts) = String.◌∷◌ c part ∷ parts

-- `str::split` at a character, which is given by its code.
abbrev pub split : ℕ → String → List String
split at String.[] = String.[] ∷ []
split at (String.◌∷◌ c s) =
    let rest = split at s in if nat_eq (code c) at then String.[] ∷ rest else onto_first c rest

abbrev without : ℕ → String → Bool
without at String.[] = true
without at (String.◌∷◌ c s) = not (nat_eq (code c) at) && without at s

-- No character of the text has the code.
abbrev pub Without : ℕ → String → Type 0
Without at s = without at s ≡ true

pub split_one : (at : ℕ) (s : String) → Without at s → split at s ≡ s ∷ []
split_one at String.[] h = refl
split_one at (String.◌∷◌ c s) h = elim (Bool-cases (nat_eq (code c) at)) [
  | inl e ↦ absurd (ground arith)
  | inr e ↦ rw (e, split_one at s (ground arith)) refl
]

pub split-append :
    (at : ℕ) (c : Char) (s t : String)
    → code c ≡ at
    → Without at s
    → split at (append s (String.◌∷◌ c t)) ≡ s ∷ split at t
split-append at c String.[] t e h = rw ((nat_eq_iff (code c) at).1 e) refl
split-append at c (String.◌∷◌ d s) t e h = elim (Bool-cases (nat_eq (code d) at)) [
  | inl f ↦ absurd (ground arith)
  | inr f ↦ rw (f, split-append at c s t e (ground arith)) refl
]
