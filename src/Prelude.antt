-- ===== src/Prelude.antt =====
-- The names that the modules share: the libraries', passed on, the Boolean tests and lists of the
-- model, and the handlers' monad.
mod Tests
mod Lists
mod Rows
mod Unique
mod Monad
mod Invariants
mod Guards
pub use Tests.*
pub use Lists.*
pub use Rows.*
pub use Unique.*
pub use Monad.*
pub use Invariants.*
pub use Guards.*
pub use Prim.Native.Nat.{ℕ, zero, suc, ◌+◌, ◌-◌, ◌*◌, ◌≤◌, ◌<◌, compare, Ordering}
pub use Prim.Native.String.{String}
pub use mathlib.Core.Path.{◌≡◌, refl, sym, ap, ◌∙◌, subst}
pub use mathlib.Core.Logic.{◌≢◌, ◌↔◌, ◌⊎◌, inl, inr}
pub use mathlib.Core.Bool.{Bool, true, false, not, ◌&&◌, ◌||◌}
pub use mathlib.Core.Option.{Option, none, some}
pub use mathlib.Core.List.{List, [], ◌∷◌, ◌++◌, map}
pub use native.Mathlib.Omega.{arith}
pub use text.Mathlib.TextEquality.{eq_iff}
