-- ===== src/Prelude.antt =====
-- The names that the other modules share: the libraries', passed on, and those of the children.
mod Tests
mod Strings
mod Lists
mod Maps
pub mod Digits
pub use Tests.*
pub use Lists.*
pub use Strings.{Bytes, codes, str_eq}
unfoldable pub use Strings.{Bytes-discrete}
pub use Maps.{
  Map, keys, has_key, Lacks, Distinct, lookup-insert, lookup-delete, lookup-insert_cases,
  lookup-delete-some, Lacks-insert, Lacks-delete, lookup_of_Lacks, Lacks-of_lookup, delete_of_Lacks,
  insert-Distinct, delete-Distinct, length-insert, length-delete, map_laws,
}
unfoldable pub use Maps.{lookup, insert, delete}
pub use Prim.Native.Nat.{ℕ, zero, suc, ◌+◌, ◌-◌, ◌*◌, ◌/◌, ◌%◌, ◌^◌, ◌≤◌, ◌<◌, min}
pub use mathlib.Core.Path.{◌≡◌, refl, sym, ap, ap₂, ◌∙◌, subst, fun_ext}
pub use mathlib.Core.Logic.{◌≢◌, ◌↔◌, ◌⊎◌, inl, inr, ite}
pub use mathlib.Core.Bool.{Bool, true, false, not, ◌&&◌, ◌||◌}
pub use mathlib.Core.Option.{Option, none, some}
pub use mathlib.Core.List.{List, [], ◌∷◌, ◌++◌, map, append_assoc, append-nil}
pub use native.Mathlib.Omega.{arith}
