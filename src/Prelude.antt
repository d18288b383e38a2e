-- ===== src/Prelude.antt =====
-- The names that the other modules share: the libraries', passed on, and those of three children; Total counts.
mod Tests
mod Lists
mod Words
pub mod Total
pub mod Sum
pub use Tests.*
pub use Lists.*
unfoldable pub use Words.{u64, u32, u64_sub}
pub use Words.{u64-eq_of_lt, u32-eq_of_lt, u64_sub-eq_of_le}
pub use Prim.Native.Nat.{ℕ, zero, suc, ◌+◌, ◌-◌, ◌*◌, ◌/◌, ◌%◌, ◌^◌, ◌≤◌, ◌<◌}
pub use mathlib.Core.Path.{◌≡◌, refl, sym, ap, ap₂, subst, ◌∙◌, fun_ext}
pub use mathlib.Core.Logic.{◌≢◌, ◌↔◌, ◌⊎◌, inl, inr}
pub use mathlib.Core.Bool.{Bool, true, false, not, ◌&&◌, ◌||◌}
pub use mathlib.Core.Option.{Option, none, some}
pub use mathlib.Core.List.{List, [], ◌∷◌, ◌++◌, map}
pub use native.Mathlib.Omega.{arith}
unfoldable pub use native.Mathlib.Decide.{dec_lt, ℕ_discrete}
