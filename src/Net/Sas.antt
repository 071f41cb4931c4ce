-- ===== src/Net/Sas.antt =====
-- `generate_sas_code` of crates/flowkey-protocol/src/message.rs: the digits that two users compare.
-- A text of digits is the list of their codes.
use Prim.Native.Char.{code}
use text.Mathlib.TextEquality.{Char-path}
use flowkey.Base.{
  ℕ, ◌+◌, ◌*◌, ◌/◌, ◌%◌, String, Bool, true, false, ◌&&◌, ◌||◌, ◌≡◌, refl, List, [], ◌∷◌, ltb,
  nat_eq, arith, ap, ap₂, Bool-cases, inl, inr, if◌then◌else◌,
}

-- sha3's SHA3-256 of two texts, one behind the other.
pub record Sha3 : Type 0 where
  pub digest : String → String → List ℕ

-- The order of texts, by their code points (which is the order of their UTF-8 bytes).
abbrev text_le : String → String → Bool
text_le String.[] t = true
text_le (String.◌∷◌ c s) String.[] = false
text_le (String.◌∷◌ c s) (String.◌∷◌ d t) =
    ltb (code c) (code d) || (nat_eq (code c) (code d) && text_le s t)

-- `sort` of two keys.
abbrev sort_keys : String → String → String × String
sort_keys a b = if text_le a b then (a, b) else (b, a)

-- `u64::from_be_bytes` of the first bytes.
abbrev be_value : ℕ → List ℕ → ℕ
be_value value [] = value
be_value value (b ∷ bs) = be_value (value * 256 + b) bs

abbrev first_eight : List ℕ → List ℕ
first_eight (a ∷ b ∷ c ∷ d ∷ e ∷ f ∷ g ∷ h ∷ _) = a ∷ b ∷ c ∷ d ∷ e ∷ f ∷ g ∷ h ∷ []
first_eight bytes = bytes

-- `{:06}` of a number below 1_000_000.
abbrev six_digits : ℕ → List ℕ
six_digits n =
    (b'0' + n / 100000 % 10)
    ∷ (b'0' + n / 10000 % 10)
    ∷ (b'0' + n / 1000 % 10)
    ∷ (b'0' + n / 100 % 10)
    ∷ (b'0' + n / 10 % 10)
    ∷ (b'0' + n % 10)
    ∷ []

code_of_keys : Sha3 → String × String → List ℕ
code_of_keys sha keys = six_digits (be_value 0 (first_eight (sha.digest keys.0 keys.1)) % 1000000)

unfoldable pub generate_sas_code : Sha3 → String → String → List ℕ
unfolding code_of_keys
generate_sas_code sha a b = code_of_keys sha (sort_keys a b)

text_le_antisym : (a b : String) → text_le a b ≡ true → text_le b a ≡ true → a ≡ b
text_le_antisym String.[] String.[] h k = refl
text_le_antisym String.[] (String.◌∷◌ d t) h k = cc
text_le_antisym (String.◌∷◌ c s) String.[] h k = cc
text_le_antisym (String.◌∷◌ c s) (String.◌∷◌ d t) h k =
    ap₂ String.◌∷◌ (Char-path c d (ground arith))
      (text_le_antisym s t (ground arith) (ground arith))

text_le_total : (a b : String) → text_le a b ≡ false → text_le b a ≡ true
text_le_total String.[] t h = cc
text_le_total (String.◌∷◌ c s) String.[] h = refl
text_le_total (String.◌∷◌ c s) (String.◌∷◌ d t) h = elim (Bool-cases (text_le s t)) [
  | inl e ↦ ground arith
  | inr e ↦ ground (arith, text_le_total s t e)
]

sort_keys_comm : (a b : String) → sort_keys a b ≡ sort_keys b a
sort_keys_comm a b = elim (Bool-cases (text_le a b)) [
  | inl e ↦ elim (Bool-cases (text_le b a)) [
    | inl f ↦ rw (text_le_antisym a b e f) refl
    | inr f ↦ rw (e, f) refl
  ]
  | inr e ↦ rw (e, text_le_total a b e) refl
]

-- Both sides compute the same digits.
pub generate_sas_code_comm :
    (sha : Sha3) (a b : String) → generate_sas_code sha a b ≡ generate_sas_code sha b a
unfolding generate_sas_code
generate_sas_code_comm sha a b = ap (code_of_keys sha) (sort_keys_comm a b)
