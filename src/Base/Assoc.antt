-- ===== src/Base/Assoc.antt =====
-- A `HashMap<String, V>` as an association list. Its keys stand in the map's iteration order, which
-- Rust leaves open.
use flowkey.Base.{
  String, ◌≡◌, refl, Option, none, some, List, [], ◌∷◌, arith, eq_iff, String_eq, ◌==◌,
  if◌then◌else◌,
}

module _ {ℓ} {V : Type ℓ} where
  unfoldable pub lookup : String → List (String × V) → Option V
  lookup name [] = none
  lookup name ((key, value) ∷ rest) = if key == name then some value else lookup name rest

  -- A present key keeps its place.
  unfoldable pub insert : String → V → List (String × V) → List (String × V)
  insert name new [] = (name, new) ∷ []
  insert name new ((key, value) ∷ rest) =
      if key == name then (name, new) ∷ rest else (key, value) ∷ insert name new rest

  unfoldable pub remove : String → List (String × V) → List (String × V)
  remove name [] = []
  remove name ((key, value) ∷ rest) =
      let others = remove name rest in if key == name then others else (key, value) ∷ others

  pub lookup-insert :
      (changed asked : String) (new : V) (entries : List (String × V))
      → lookup asked (insert changed new entries)
        ≡ (if changed == asked then some new else lookup asked entries)
  unfolding lookup insert
  lookup-insert changed asked new [] = refl
  lookup-insert changed asked new ((key, value) ∷ rest) = ground (
    arith,
    lookup-insert changed asked new rest,
    eq_iff key changed,
    eq_iff key asked,
    eq_iff changed asked,
  )

  pub lookup-remove :
      (gone asked : String) (entries : List (String × V))
      → lookup asked (remove gone entries) ≡ (if gone == asked then none else lookup asked entries)
  unfolding lookup remove
  lookup-remove gone asked [] = ground arith
  lookup-remove gone asked ((key, value) ∷ rest) =
      ground
        (arith, lookup-remove gone asked rest, eq_iff key gone, eq_iff key asked, eq_iff gone asked)
