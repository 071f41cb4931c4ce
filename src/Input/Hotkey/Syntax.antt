-- ===== src/Input/Hotkey/Syntax.antt =====
-- `HotkeyBinding::parse`: a chord such as "Ctrl+Alt+Shift+K". Texts are walked by their characters;
-- a word is compared by the code points of its lower-case form.
use Prim.Native.Char.{code}
use flowkey.Base.{
  ℕ, String, Bool, true, false, ◌&&◌, ◌||◌, ◌+◌, ◌≡◌, Option, none, some, List, [], ◌∷◌, map, codes,
  leb, nat_eq, any, if◌then◌else◌, arith,
}
use flowkey.Base.Result.{Result, ok, err, ◌>>=◌, >>=-eq-ok}
use flowkey.Input.Event.{Modifiers, no_modifiers}
use flowkey.Input.KeyCode.{KeyCode, unmapped, parse_key_code}
use flowkey.Input.Hotkey.{HotkeyBinding}

pub data ParseError : Type 0 where
  second_key missing_key : ParseError
  unsupported : String → ParseError

-- `char::is_whitespace`: the code points with the property White_Space.
unfoldable pub is_whitespace : ℕ → Bool
is_whitespace c =
    (leb 9 c && leb c 13)
    || (nat_eq c 32
        || (nat_eq c 133
            || (nat_eq c 160
                || (nat_eq c 5760
                    || ((leb 8192 c && leb c 8202)
                        || (nat_eq c 8232
                            || (nat_eq c 8233
                                || (nat_eq c 8239 || (nat_eq c 8287 || nat_eq c 12288)))))))))

trim_start : String → String
unfolding is_whitespace
trim_start String.[] = String.[]
trim_start (String.◌∷◌ c s) = if is_whitespace (code c) then trim_start s else String.◌∷◌ c s

-- A trailing space is one that nothing follows once the rest is trimmed.
trim_end : String → String
unfolding is_whitespace
trim_end String.[] = String.[]
trim_end (String.◌∷◌ c s) = elim (trim_end s) [
  | String.[] ↦ if is_whitespace (code c) then String.[] else String.◌∷◌ c String.[]
  | String.◌∷◌ d r ↦ String.◌∷◌ c (String.◌∷◌ d r)
]

unfoldable pub trim : String → String
unfolding trim_start trim_end
trim s = trim_end (trim_start s)

-- The character goes to the first part.
prepend : List String → String → List String
prepend [] s = s ∷ []
prepend (part ∷ parts) String.[] = part ∷ parts
prepend (part ∷ parts) (String.◌∷◌ c s) = String.◌∷◌ c part ∷ parts

-- `split('+')`: one part more than there are plus signs.
unfoldable pub split_plus : String → List String
unfolding prepend
split_plus String.[] = String.[] ∷ []
split_plus (String.◌∷◌ c s) =
    let rest = split_plus s in
    if nat_eq (code c) b'+' then String.[] ∷ rest else prepend rest (String.◌∷◌ c String.[])

to_ascii_lowercase : ℕ → ℕ
to_ascii_lowercase c = if leb b'A' c && leb c b'Z' then c + 32 else c

codes_eq : List ℕ → List ℕ → Bool
codes_eq [] [] = true
codes_eq (a ∷ as_) (b ∷ bs) = nat_eq a b && codes_eq as_ bs
codes_eq _ _ = false

-- Is the part one of the words, in any case?
unfoldable pub is_word : List String → String → Bool
unfolding to_ascii_lowercase codes_eq
is_word words part = any (λ w. codes_eq (map to_ascii_lowercase (codes part)) (codes w)) words

abbrev is_empty : String → Bool
is_empty String.[] = true
is_empty (String.◌∷◌ c s) = false

-- What the parts so far say: the modifiers, and the key.
abbrev pub Parsed : Type 0
Parsed = Modifiers × Option KeyCode

set_key : KeyCode → String → Modifiers → Result ParseError Parsed
set_key (unmapped _) part m = err (unsupported part)
set_key key part m = ok (m, some key)

parse_key : Option KeyCode → String → Modifiers → Result ParseError Parsed
unfolding set_key
parse_key (some _) part m = err second_key
parse_key none part m = set_key (parse_key_code part) part m

unfoldable pub parse_part : Parsed → String → Result ParseError Parsed
unfolding parse_key is_word
parse_part (m, key) part =
    if is_empty part
    then ok (m, key)
    else if is_word ("shift" ∷ []) part
    then ok (record m { shift = true }, key)
    else if is_word ("ctrl" ∷ "control" ∷ []) part
    then ok (record m { control = true }, key)
    else if is_word ("alt" ∷ "option" ∷ []) part
    then ok (record m { alt = true }, key)
    else if is_word ("meta" ∷ "cmd" ∷ "command" ∷ "win" ∷ "windows" ∷ "super" ∷ []) part
    then ok (record m { meta = true }, key)
    else parse_key key part m

unfoldable pub parse_parts : List String → Parsed → Result ParseError Parsed
parse_parts [] parsed = ok parsed
parse_parts (part ∷ parts) parsed = parse_part parsed (trim part) >>= parse_parts parts

finish : Parsed → Result ParseError HotkeyBinding
finish (m, none) = err missing_key
finish (m, some key) = ok (record { code = key; modifiers = m })

unfoldable pub parse : String → Result ParseError HotkeyBinding
unfolding parse_parts finish
parse value = parse_parts (split_plus value) (no_modifiers, none) >>= finish

abbrev pub is_unmapped : KeyCode → Bool
is_unmapped (unmapped _) = true
is_unmapped _ = false

abbrev Mapped : Option KeyCode → Type 0
Mapped none = Unit {0}
Mapped (some key) = is_unmapped key ≡ false

set_key-Mapped :
    (key : KeyCode) (part : String) (m : Modifiers) (q : Parsed)
    → set_key key part m ≡ ok q
    → Mapped q.1
unfolding set_key
set_key-Mapped (unmapped _) part m q h = cc
set_key-Mapped _ part m q h = ground arith

parse_part-Mapped :
    (p : Parsed) (part : String) (q : Parsed) → Mapped p.1 → parse_part p part ≡ ok q → Mapped q.1
unfolding parse_part
parse_part-Mapped (m, key) part q k h =
    ground (arith, set_key-Mapped (parse_key_code part) part m q)

parse_parts-Mapped :
    (parts : List String) (p q : Parsed) → Mapped p.1 → parse_parts parts p ≡ ok q → Mapped q.1
unfolding parse_parts
parse_parts-Mapped [] p q k h = ground arith
parse_parts-Mapped (part ∷ parts) p q k h =
    let (r, first, rest) = >>=-eq-ok (parse_part p (trim part)) (parse_parts parts) h in
    parse_parts-Mapped parts r q (parse_part-Mapped p (trim part) r k first) rest

finish-Mapped :
    (q : Parsed) (b : HotkeyBinding) → Mapped q.1 → finish q ≡ ok b → is_unmapped b.code ≡ false
unfolding finish
finish-Mapped (m, none) b k h = cc
finish-Mapped (m, some key) b k h = ground arith

-- A chord that parses has a key that events can match: never an unmapped one.
pub parse-mapped :
    (value : String) (b : HotkeyBinding) → parse value ≡ ok b → is_unmapped b.code ≡ false
unfolding parse
parse-mapped value b h =
    let (q, parsed, done) =
      >>=-eq-ok (parse_parts (split_plus value) (no_modifiers, none)) finish h in
    finish-Mapped q b (parse_parts-Mapped (split_plus value) (no_modifiers, none) q tt parsed) done
