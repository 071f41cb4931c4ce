-- ===== src/Input/Injector/Names.antt =====
-- The names under which the forced releases are recorded, against the names of captured keys.
use flowkey.Base.{
  ℕ, zero, suc, ◌+◌, ◌≤◌, ◌<◌, Bool, true, false, Option, some, List, [], ◌∷◌, All, ◌≡◌, refl, inl,
  inr, ◌⊎◌, subst, arith, if◌then◌else◌, parse_u8,
}
use flowkey.Base.Assoc.{lookup}
use flowkey.Input.KeyCode.{
  NamedKey, backspace, tab, enter, escape, space, left_arrow, right_arrow, up_arrow, down_arrow,
  home, end, page_up, page_down, insert, delete, caps_lock, num_lock, scroll_lock, print_screen,
  pause, f, KeyCode, character, named, unmapped, parse_key_code, code_to_character,
}
use flowkey.Input.Injector.Keys.{Key, unicode, f_key, named_key, key_code_name}

count_up : ℕ → ℕ → List ℕ
count_up start zero = []
count_up start (suc n) = start ∷ count_up (start + 1) n

-- What holds of each number of a range.
in_range {ℓ} :
    (P : ℕ → Type ℓ) (n start i : ℕ) → All P (count_up start n) → start ≤ i → i < start + n → P i
unfolding count_up
in_range P zero start i h low high = absurd (omega arith)
in_range P (suc n) start i h low high = elim (split start i low) [
  | inl here ↦ subst P here h.0
  | inr later ↦ in_range P n (start + 1) i h.1 later (omega arith)
]
  where
    split : (a b : ℕ) → a ≤ b → (a ≡ b) ⊎ (a + 1 ≤ b)
    split a b h = omega arith

-- The keys whose recorded name is not the name of the key's code.
abbrev pub is_misnamed : NamedKey → Bool
is_misnamed num_lock = true
is_misnamed scroll_lock = true
is_misnamed print_screen = true
is_misnamed _ = false

-- What a name is read as.
abbrev Reads : Key → KeyCode → Type 0
Reads k code = parse_key_code (key_code_name k) ≡ code

function_keys : All (λ i. Reads (f_key i) (named (f i))) (count_up 1 20)
unfolding count_up parse_key_code key_code_name lookup parse_u8
function_keys = (
  refl,
  (
    refl,
    (
      refl,
      (
        refl,
        (
          refl,
          (
            refl,
            (
              refl,
              (
                refl,
                (
                  refl,
                  (
                    refl,
                    (
                      refl,
                      (refl, (refl, (refl, (refl, (refl, (refl, (refl, (refl, (refl, tt))))))))),
                    ),
                  ),
                ),
              ),
            ),
          ),
        ),
      ),
    ),
  ),
)

letters : All (λ c. Reads (unicode c) (character c)) (count_up b'a' 26)
unfolding count_up parse_key_code key_code_name lookup parse_u8 code_to_character
letters = (
  refl,
  (
    refl,
    (
      refl,
      (
        refl,
        (
          refl,
          (
            refl,
            (
              refl,
              (
                refl,
                (
                  refl,
                  (
                    refl,
                    (
                      refl,
                      (
                        refl,
                        (
                          refl,
                          (
                            refl,
                            (
                              refl,
                              (
                                refl,
                                (
                                  refl,
                                  (
                                    refl,
                                    (
                                      refl,
                                      (refl, (refl, (refl, (refl, (refl, (refl, (refl, tt))))))),
                                    ),
                                  ),
                                ),
                              ),
                            ),
                          ),
                        ),
                      ),
                    ),
                  ),
                ),
              ),
            ),
          ),
        ),
      ),
    ),
  ),
)

digits : All (λ c. Reads (unicode c) (unmapped (key_code_name (unicode c)))) (count_up b'0' 10)
unfolding count_up parse_key_code key_code_name lookup parse_u8 code_to_character
digits = (refl, (refl, (refl, (refl, (refl, (refl, (refl, (refl, (refl, (refl, tt))))))))))

some_injective : {k q : Key} → ◌≡◌ {A = Option Key} (some k) (some q) → k ≡ q
some_injective h = cc

function_index :
    (i : ℕ) (k : Key) → named_key (f i) ≡ some k → (f_key i ≡ k) × (1 ≤ i) × (i < 1 + 20)
unfolding named_key
function_index i k h = ground arith

function_read : (i : ℕ) (k : Key) → named_key (f i) ≡ some k → Reads k (named (f i))
function_read i k h =
    let (same, low, high) = function_index i k h in
    subst (λ q. Reads q (named (f i))) same
      (in_range (λ j. Reads (f_key j) (named (f j))) 20 1 i function_keys low high)

named_read :
    (n : NamedKey) (k : Key)
    → named_key n ≡ some k
    → Reads k (if is_misnamed n then unmapped (key_code_name k) else named n)
unfolding named_key parse_key_code key_code_name lookup parse_u8 code_to_character
named_read backspace k h = subst (λ q. Reads q (named backspace)) (some_injective h) refl
named_read tab k h = subst (λ q. Reads q (named tab)) (some_injective h) refl
named_read enter k h = subst (λ q. Reads q (named enter)) (some_injective h) refl
named_read escape k h = subst (λ q. Reads q (named escape)) (some_injective h) refl
named_read space k h = subst (λ q. Reads q (named space)) (some_injective h) refl
named_read left_arrow k h = subst (λ q. Reads q (named left_arrow)) (some_injective h) refl
named_read right_arrow k h = subst (λ q. Reads q (named right_arrow)) (some_injective h) refl
named_read up_arrow k h = subst (λ q. Reads q (named up_arrow)) (some_injective h) refl
named_read down_arrow k h = subst (λ q. Reads q (named down_arrow)) (some_injective h) refl
named_read home k h = subst (λ q. Reads q (named home)) (some_injective h) refl
named_read end k h = subst (λ q. Reads q (named end)) (some_injective h) refl
named_read page_up k h = subst (λ q. Reads q (named page_up)) (some_injective h) refl
named_read page_down k h = subst (λ q. Reads q (named page_down)) (some_injective h) refl
named_read delete k h = subst (λ q. Reads q (named delete)) (some_injective h) refl
named_read caps_lock k h = subst (λ q. Reads q (named caps_lock)) (some_injective h) refl
named_read num_lock k h = subst (λ q. Reads q (unmapped (key_code_name q))) (some_injective h) refl
named_read scroll_lock k h =
    subst (λ q. Reads q (unmapped (key_code_name q))) (some_injective h) refl
named_read print_screen k h =
    subst (λ q. Reads q (unmapped (key_code_name q))) (some_injective h) refl
named_read pause k h = subst (λ q. Reads q (named pause)) (some_injective h) refl
named_read insert k h = cc
named_read (f i) k h = function_read i k h

-- The code of a named key that the injector has is read back from the name of enigo's key, but for
-- NumLock, ScrollLock and PrintScreen, whose names are no code. The name of a small letter is read
-- back as the letter, and that of a digit is no code.
pub parse-key_code_name :
    ((n : NamedKey) (k : Key)
      → named_key n ≡ some k
      → parse_key_code (key_code_name k)
        ≡ (if is_misnamed n then unmapped (key_code_name k) else named n))
    × ((c : ℕ)
        → b'a' ≤ c
        → c < b'a' + 26
        → parse_key_code (key_code_name (unicode c)) ≡ character c)
    × ((c : ℕ)
        → b'0' ≤ c
        → c < b'0' + 10
        → parse_key_code (key_code_name (unicode c)) ≡ unmapped (key_code_name (unicode c)))
parse-key_code_name = (
  named_read,
  λ c. in_range (λ i. Reads (unicode i) (character i)) 26 b'a' c letters,
  λ c. in_range (λ i. Reads (unicode i) (unmapped (key_code_name (unicode i)))) 10 b'0' c digits,
)
