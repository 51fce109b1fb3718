-- ===== src/Prelude.antt =====
-- The names that every module shares: the libraries', passed on, and those of the children.
mod Tests
mod Eq
mod Lists
mod Counting
mod Sorting
mod Rearranged
mod Numbered
mod Dicts
pub use Tests.*
pub use Eq.{
  Compared, compared_by, beq_iff, ◌==◌, nat_eq, string_eq, option_eq, truthy, beq_refl, beq→eq,
  list_eq, list_beq, list_beq_refl, list_beq→eq, product_beq, product_beq_iff, product_eq,
}
pub use Lists.*
pub use Counting.*
unfoldable pub use Sorting.*
pub use Rearranged.*
pub use Numbered.*
pub use Dicts.*
pub use Prim.Native.Nat.{ℕ, zero, suc, ◌+◌, ◌-◌, ◌*◌, ◌/◌, ◌%◌, ◌^◌, ◌≤◌, ◌<◌, min, max}
pub use Prim.Native.String.{String}
pub use mathlib.Core.Path.{◌≡◌, refl, sym, ap, ◌∙◌, subst}
pub use mathlib.Core.Logic.{◌≢◌, ◌↔◌, ◌⊎◌, inl, inr}
pub use mathlib.Core.Bool.{Bool, true, false, ◌&&◌, ◌||◌, not}
pub use mathlib.Core.Option.{Option, none, some}
pub use mathlib.Core.List.{List, [], ◌∷◌, ◌++◌, map}
pub use native.Mathlib.Omega.{arith}
