-- ===== src/Common.antt =====
-- Names that every part shares: the libraries', passed on, with Boolean tests, lists measured by
-- native numbers, predicates over lists, tables, and texts as lists of codes.
mod Tests
mod Lists
mod Rows
mod Text
pub use Tests.*
pub use Lists.*
pub use Rows.*
pub use Text.*
pub use Prim.Native.Nat.{ℕ, zero, suc, ◌+◌, ◌-◌, ◌*◌, ◌/◌, ◌%◌, ◌^◌, ◌≤◌, ◌<◌}
pub use Prim.Native.String.{String}
pub use mathlib.Core.Path.{◌≡◌, refl, sym, ap, ◌∙◌}
pub use mathlib.Core.Logic.{◌≢◌, ◌↔◌, ◌⊎◌, inl, inr}
pub use mathlib.Core.Bool.{Bool, true, false, not, ◌&&◌, ◌||◌}
pub use mathlib.Core.Option.{Option, none, some}
pub use mathlib.Core.List.{List, [], ◌∷◌, ◌++◌, map, append-nil, append_assoc}
pub use native.Mathlib.Omega.{arith}
pub use text.Mathlib.Text.{◌==◌ as ◌==s◌}
pub use text.Mathlib.TextEquality.{eq_iff}
