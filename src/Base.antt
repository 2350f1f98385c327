-- ===== src/Base.antt =====
-- The names that the other modules share: the libraries', passed on, and those of the children.
pub mod Tests
pub mod Lists
pub mod Strings
pub mod Assoc
pub mod Integers
pub use Tests.*
pub use Lists.*
pub use Integers.*
unfoldable pub use Strings.{Str, bytes, str_eq, str_lt, has_prefix, contains}
pub use Strings.{str_eq_iff, str_eq_refl, str_lt_total, str_lt_irrefl, str_lt_trans, str_le_trans}
unfoldable pub use Assoc.{lookup, insert, delete, prune, IsMap, kept}
pub use Assoc.{Each, Each-lookup, Each-delete, Each-insert, Each-prune}
pub use Assoc.{
  lookup-tail, lookup-head, lookup-insert, lookup-delete, lookup-prune, insert-IsMap, delete-IsMap,
  prune-IsMap,
}
pub use Prim.Native.Nat.{ℕ, zero, suc, ◌+◌, ◌-◌, ◌*◌, ◌/◌, ◌%◌, ◌^◌, ◌≤◌, ◌<◌}
pub use mathlib.Core.Path.{◌≡◌, refl, sym, ap, ◌∙◌, subst}
pub use mathlib.Core.Logic.{◌≢◌, ◌↔◌, ◌⊎◌, inl, inr}
pub use mathlib.Core.Bool.{Bool, true, false, not, ◌&&◌, ◌||◌}
pub use mathlib.Core.Option.{Option, none, some}
pub use mathlib.Core.List.{List, [], ◌∷◌, ◌++◌, map, append-nil, append_assoc}
pub use native.Mathlib.Omega.{arith}
