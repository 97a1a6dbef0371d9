-- ===== src/Base.antt =====
-- Names that every module shares: the libraries' names, passed on, and those of the children.
-- `Tests` has Boolean tests, `Lists` sequences over native numbers, `Tables` the rows that an ORM
-- session reads and writes, `Session` the results of a service function, `Postconditions` what holds of them.
mod Tests
mod Lists
mod Tables
mod Links
mod Session
mod Postconditions
mod Order
mod Texts
mod Python
pub use Tests.*
pub use Lists.*
pub use Tables.*
pub use Links.*
pub use Session.*
pub use Postconditions.*
pub use Order.*
pub use Texts.*
pub use Python.*
pub use Prim.Native.Nat.{ℕ, zero, suc, ◌+◌, ◌-◌, ◌*◌, ◌/◌, ◌%◌, ◌^◌, ◌≤◌, ◌<◌, min, max}
pub use Prim.Native.String.{String}
pub use mathlib.Core.Path.{◌≡◌, refl, sym, ap, ◌∙◌, fun_ext, subst}
pub use mathlib.Core.Logic.{◌≢◌, ◌↔◌, ◌⊎◌, inl, inr}
pub use mathlib.Core.Bool.{Bool, true, false, not, ◌&&◌, ◌||◌}
pub use mathlib.Core.Option.{Option, none, some}
pub use mathlib.Core.List.{List, [], ◌∷◌, ◌++◌, map}
pub use native.Mathlib.Omega.{arith}
