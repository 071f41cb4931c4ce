-- ===== src/Base.antt =====
-- Names that every part shares: the libraries' types and laws passed on, Boolean tests and equality
-- (Base/Tests), texts (Base/Text), lists over the native numbers (Base/Lists), the association lists that stand for
-- Rust's HashMap (Base/Assoc), signed integers (Base/Int) and results (Base/Result).
mod Tests
mod Lists
mod Text
pub mod Assoc
pub mod Int
pub mod Result
pub use Tests.*
pub use Lists.*
unfoldable pub use Text.{codes, parse_u8}
pub use Text.{append, split, Without, split-append, split_one}
pub use Prim.Native.Nat.{ℕ, zero, suc, ◌+◌, ◌-◌, ◌*◌, ◌/◌, ◌%◌, ◌^◌, ◌≤◌, ◌<◌, min, max}
pub use Prim.Native.String.{String}
pub use mathlib.Core.Path.{◌≡◌, refl, sym, ap, ap₂, subst, ◌∙◌}
pub use mathlib.Core.Logic.{◌≢◌, ◌↔◌, ◌⊎◌, inl, inr}
pub use mathlib.Core.Bool.{Bool, true, false, not, ◌&&◌, ◌||◌}
pub use mathlib.Core.Option.{Option, none, some}
pub use mathlib.Core.List.{List, [], ◌∷◌, ◌++◌, map, reverse}
pub use native.Mathlib.Omega.{arith}
pub use text.Mathlib.TextEquality.{eq_iff}
