-- ===== src/Common.antt =====
-- Names that every module of the library shares: the libraries' own, passed on, and those of
-- the children, which stand for no particular file of the program.
mod Tests
mod Lists
mod Equality
mod Assoc
mod Member
pub mod Int
mod Outcome
mod Texts
pub mod Exec
pub use Tests.*
pub use Lists.*
pub use Equality.*
unfoldable pub use Assoc.*
pub use Member.*
pub use Outcome.*
unfoldable pub use Texts.*
pub use Prim.Native.Nat.{ℕ, zero, suc, ◌+◌, ◌-◌, ◌*◌, ◌/◌, ◌%◌, ◌^◌, ◌≤◌, ◌<◌, min, max}
pub use Prim.Native.String.{String}
pub use mathlib.Core.Path.{◌≡◌, refl, sym, ap, subst, ◌∙◌}
pub use mathlib.Core.Logic.{◌≢◌, ◌↔◌, ◌⊎◌, inl, inr}
pub use mathlib.Core.Bool.{Bool, true, false, not, ◌&&◌, ◌||◌}
pub use mathlib.Core.Option.{Option, none, some}
pub use mathlib.Core.List.{List, [], ◌∷◌, ◌++◌, map}
pub use native.Mathlib.Omega.{arith}
