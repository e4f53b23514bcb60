-- ===== src/Prelude.antt =====
-- The names that the other modules share: the libraries' and those of the children.
pub mod Tests
pub mod Lists
pub mod Text
pub mod Letters
pub mod Table
pub mod Effects
pub use Tests.*
pub use Lists.*
pub use Text.{contains-all}
unfoldable pub use Text.{contains, lookup}
unfoldable pub use Letters.{lower, upper, strip, strip_left, strip_right, after_space, letters}
pub use Table.*
pub use Effects.*
pub use Prim.Native.Nat.{ℕ, zero, suc, ◌+◌, ◌-◌, ◌*◌, ◌/◌, ◌%◌, ◌≤◌, ◌<◌, min, max}
pub use Prim.Native.String.{String, ◌++◌ as ◌<>◌}
pub use mathlib.Core.Path.{◌≡◌, refl, sym, ap, ◌∙◌, subst}
pub use mathlib.Core.Logic.{◌≢◌, ◌↔◌, ◌⊎◌, inl, inr}
pub use mathlib.Core.Bool.{Bool, true, false, not, ◌&&◌, ◌||◌}
pub use mathlib.Core.Option.{Option, none, some}
pub use mathlib.Core.List.{List, [], ◌∷◌, ◌++◌, map}
pub use native.Mathlib.Omega.{arith}
pub use text.Mathlib.Text.{◌==◌ as str_eq}
pub use text.Mathlib.TextEquality.{eq_iff}
pub use text.Mathlib.TextPositions.{eq_refl}
