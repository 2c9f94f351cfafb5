-- ===== src/Base.antt =====
-- The names that every module shares: the libraries', passed on, and the helpers of the children.
mod Checks
mod Lists
mod Member
mod Perms
pub mod Result
pub mod Assoc
pub mod Float
pub use Checks.*
pub use Lists.*
pub use Member.*
pub use Perms.*
pub use Prim.Native.Nat.{
  Ordering, compare, min, suc, zero, ℕ, ◌%◌, ◌*◌, ◌+◌, ◌-◌, ◌/◌, ◌<◌, ◌^◌, ◌≤◌,
}
pub use mathlib.Core.Path.{ap, ap₂, refl, subst, sym, ◌∙◌, ◌≡◌}
pub use mathlib.Core.Logic.{inl, inr, ◌↔◌, ◌≢◌, ◌⊎◌}
pub use mathlib.Core.Bool.{Bool, false, not, true, ◌&&◌, ◌||◌}
pub use mathlib.Core.Option.{Option, none, some}
pub use mathlib.Core.List.{List, map, [], ◌++◌, ◌∷◌}
pub use native.Mathlib.Omega.{arith}
