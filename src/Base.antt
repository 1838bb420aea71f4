-- ===== src/Base.antt =====
-- Names that every module shares: the libraries' names passed on, Boolean tests, results and text.
mod Tests
mod Text
mod Lists
mod Tables
mod Queries
mod Rows
pub mod Result
unfoldable pub use Tests.*
unfoldable pub use Text.*
pub use Lists.*
unfoldable pub use Tables.*
unfoldable pub use Queries.*
pub use Rows.*
pub use Prim.Native.Nat.{ℕ, zero, suc, ◌+◌, ◌-◌, ◌*◌, ◌≤◌, ◌<◌}
pub use Prim.Native.String.{String}
pub use mathlib.Core.Path.{◌≡◌, refl, sym, ap, ◌∙◌}
pub use mathlib.Core.Logic.{◌≢◌, ◌↔◌, ◌⊎◌, inl, inr}
pub use mathlib.Core.Bool.{Bool, true, false, not, ◌&&◌, ◌||◌}
pub use mathlib.Core.Option.{Option, none, some, get_or}
pub use mathlib.Core.List.{List, [], ◌∷◌, ◌++◌, map}
pub use native.Mathlib.Omega.{arith}
