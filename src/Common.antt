-- ===== src/Common.antt =====
-- What every other file uses: names of the libraries, the conditional and the tests on numbers,
-- predicates over lists, and tables of rows with the queries of the database client.
mod Tests
mod Lists
mod Table
mod Searches
mod Keys
mod Counts
pub use Tests.*
pub use Lists.*
pub use Table.*
pub use Searches.*
pub use Keys.*
pub use Counts.*
pub use Prim.Native.Nat.{ℕ, zero, suc, ◌+◌, ◌-◌, ◌*◌, ◌/◌, ◌%◌, ◌^◌, ◌≤◌, ◌<◌, min, max}
pub use Prim.Native.String.{String}
pub use mathlib.Core.Path.{◌≡◌, refl, sym, ap, subst, ◌∙◌}
pub use mathlib.Core.Logic.{◌≢◌, ◌↔◌, ◌⊎◌, inl, inr}
pub use mathlib.Core.Bool.{Bool, true, false, ◌&&◌, ◌||◌, not}
pub use mathlib.Core.Option.{Option, none, some}
pub use mathlib.Core.List.{List, [], ◌∷◌, ◌++◌, map}
pub use native.Mathlib.Omega.{arith}
