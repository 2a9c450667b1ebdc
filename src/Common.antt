-- ===== src/Common.antt =====
-- The names that the modules of chat/ share: the libraries', passed on, and those of the children.
mod Tests
mod Lists
mod Int
mod Maps
mod Entries
mod Text
mod Outcomes
mod OrderedMap
mod Cases
pub use Tests.{
  ltb, leb, if◌then◌else◌, ltb→lt, lt→ltb, leb→le, tests, Bool-cases, Option-cases, if_cases,
}
pub use Lists.*
pub use Int.*
unfoldable pub use Int.{to_u64, to_int32, ◌+ℤ◌, ◌-ℤ◌, ◌*ℤ◌}
unfoldable pub use OrderedMap.{less, insert_ordered}
pub use OrderedMap.{lookup-insert_ordered, IsOrdered, insert_ordered-IsOrdered}
pub use Entries.*
pub use Cases.{Below, below, all_below_lem}
unfoldable pub use Cases.{all_below}
pub use Outcomes.*
unfoldable pub use Text.{size, strip_prefix, strip_last, digits_of, to_decimal}
pub use Text.{is_blank, size-append, strip_prefix-append}
unfoldable pub use Maps.{lookup, insert, erase}
pub use Maps.{
  Eq, ◌==◌, nat_eq, string_eq, beq_refl, beq_ne, Distinct, lookup-insert, lookup-erase,
  insert-Distinct, erase-Distinct, erase_absent, length-erase_absent, length-erase,
  length-insert_absent, length-insert_pos, length-insert_present,
}
pub use Prim.Native.Nat.{ℕ, zero, suc, ◌+◌, ◌-◌, ◌*◌, ◌/◌, ◌%◌, ◌^◌, ◌≤◌, ◌<◌}
pub use Prim.Native.String.{String}
pub use mathlib.Core.Path.{◌≡◌, refl, sym, ap, ◌∙◌, subst}
pub use mathlib.Core.Logic.{◌≢◌, ◌↔◌, ◌⊎◌, inl, inr}
pub use mathlib.Core.Bool.{Bool, true, false, not, ◌&&◌, ◌||◌}
pub use mathlib.Core.Option.{Option, none, some}
pub use mathlib.Core.List.{List, [], ◌∷◌, ◌++◌, map, Perm}
pub use native.Mathlib.Omega.{arith}
unfoldable pub use native.Mathlib.Decide.{ℕ_discrete}
