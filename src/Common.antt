-- ===== src/Common.antt =====
-- Names and helpers that the other modules share: the libraries', passed on, and a few of our own.
mod Tests
mod Texts
pub mod Lists
pub mod Int
pub mod Dict
pub use Tests.*
pub use Lists.*
pub use Texts.*
unfoldable pub use Dict.{lookup, insert, delete, modify, map_values}
pub use Dict.{Key, nat_key, string_key, Unique, nat_eq_iff, same_self}
pub use Dict.{lookup-insert, lookup-delete, lookup-modify, lookup-map_values}
pub use Dict.{insert-Unique, delete-Unique, modify-Unique, map_values-Unique}
pub use Int.{ℤ, pos, negsuc, is_neg, is_zero, ltb_ℤ}
pub use Prim.Native.Nat.{ℕ, zero, suc, ◌+◌, ◌-◌, ◌*◌, ◌≤◌, ◌<◌}
pub use Prim.Native.Char.{Char, code}
pub use Prim.Native.String.{String}
pub use text.Mathlib.Text.{◌==◌}
pub use text.Mathlib.TextEquality.{eq_iff}
pub use text.Mathlib.TextPositions.{eq_refl}
pub use mathlib.Core.Path.{◌≡◌, refl, sym, ap, subst, ◌∙◌}
pub use mathlib.Core.Logic.{◌≢◌, ◌↔◌, ◌⊎◌, inl, inr}
pub use mathlib.Core.Bool.{Bool, true, false, not, ◌&&◌, ◌||◌}
pub use mathlib.Core.Option.{Option, none, some}
pub use mathlib.Core.List.{List, [], ◌∷◌, ◌++◌, map}
pub use native.Mathlib.Omega.{arith}
