-- ===== src/Base.antt =====
-- The names that the other modules share: the libraries', passed on, and those of the children.
mod Tests
mod Lists
mod Branch
mod Text
mod Order
pub mod Int
pub mod Decimal
pub use Tests.*
pub use Lists.*
pub use Branch.*
unfoldable pub use Text.{
  codes, find, str_eq, insert, lookup, modify, lt_bytes, contains_sub, starts_with, find_sub,
}
pub use Text.{
  Bytes, Avoids, take-suc, find_from, find_from-some, find_from-Avoids, contains_sub-append,
  contains_sub-append_right, All, find-none, find-some, find-append, find-Avoids, find_lt,
  Avoids-append, str_eq_iff, str_eq_refl, lookup-insert, lookup-modify, All-append, All-map,
  Avoids-take, Avoids-drop,
}
pub use Order.*
pub use Prim.Native.Nat.{ℕ, zero, suc, ◌+◌, ◌-◌, ◌*◌, ◌/◌, ◌%◌, ◌^◌, ◌≤◌, ◌<◌, min}
pub use Prim.Native.String.{String}
pub use mathlib.Core.Path.{◌≡◌, refl, sym, ap, ap₂, ◌∙◌, subst}
pub use mathlib.Core.Logic.{◌≢◌, ◌↔◌, ◌⊎◌, inl, inr}
pub use mathlib.Core.Bool.{Bool, true, false, not, ◌&&◌, ◌||◌}
pub use mathlib.Core.Option.{Option, none, some}
pub use mathlib.Core.List.{List, [], ◌∷◌, ◌++◌, map, append-nil, append_assoc}
pub use native.Mathlib.Omega.{arith}
