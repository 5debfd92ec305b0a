-- ===== src/Base.antt =====
-- The names that the other modules share: the libraries', passed on, and those of the children.
pub mod Equality
pub mod Dict
pub mod Int
mod Lists
mod Cases
pub mod Keyed
pub mod Text
pub use Prim.Native.Nat.{ℕ}
pub use Prim.Native.String.{String}
pub use native.Mathlib.Omega.{arith}
pub use mathlib.Core.Path.{◌≡◌, refl, sym, ◌∙◌, ap, subst}
pub use mathlib.Core.Bool.{Bool, true, false}
pub use mathlib.Core.Option.{Option, none, some}
pub use mathlib.Core.List.{List, [], ◌∷◌, ◌++◌, map}
pub use Cases.{Bool-cases, Option-cases, Sum-cases}
pub use Lists.{length, length-append, All, append-All, equal-All, Among}
pub use Prim.Native.String.{◌++◌ as ◌<>◌}
pub use mathlib.Core.Logic.{◌≢◌, ◌⊎◌, ◌↔◌, inl, inr}
pub use mathlib.Core.Bool.{◌&&◌, ◌||◌, not}
pub use Equality.{Eq, ◌==◌, contains, if◌then◌else◌}
unfoldable pub use Equality.{string_eq}
