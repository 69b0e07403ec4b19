-- ===== src/Prelude.antt =====
-- The names that the other modules share: the libraries', passed on, and those of the children.
pub mod Tests
pub mod Equality
pub mod Lists
pub mod Maps
pub mod Int
pub use Tests.*
pub use Lists.*
pub use Equality.{Eq, ◌==◌, nat_eq, string_eq, option_eq, option_beq, option_beq_iff, beq_self}
pub use Maps.{
  Map, keys, values, contains_key, get-insert, get-remove, get-insert_self, get-insert_other,
  get-extend, HasDistinctKeys, kept, get-select,
}
unfoldable pub use Maps.{get, insert, remove, extend, get_last}
pub use Prim.Native.Nat.{ℕ, zero, suc, ◌+◌, ◌-◌, ◌*◌, ◌/◌, ◌%◌, ◌^◌, ◌≤◌, ◌<◌, min, max}
pub use Prim.Native.String.{String}
pub use mathlib.Core.Path.{◌≡◌, refl, sym, ap, ◌∙◌, subst}
pub use mathlib.Core.Logic.{◌≢◌, ◌↔◌, ◌⊎◌, inl, inr}
pub use mathlib.Core.Bool.{Bool, true, false, not, ◌&&◌, ◌||◌}
pub use mathlib.Core.Option.{Option, none, some}
pub use mathlib.Core.List.{List, [], ◌∷◌, ◌++◌, map, append-nil, append_assoc}
pub use native.Mathlib.Omega.{arith}
pub use text.Mathlib.TextEquality.{eq_iff}
