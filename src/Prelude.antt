-- ===== src/Prelude.antt =====
-- The names that every part shares: those of the libraries, passed on, the Boolean tests and the
-- conditional, bit masks as arithmetic, and loops that count.
mod Tests
mod Bits
mod Loops
mod Reflection
pub use Tests.*
pub use Bits.*
unfoldable pub use Loops.*
pub use Reflection.*
pub use Prim.Native.Nat.{ℕ, zero, suc, ◌+◌, ◌-◌, ◌*◌, ◌/◌, ◌%◌, ◌^◌, ◌≤◌, ◌<◌, bit_and, bit_or}
pub use mathlib.Core.Path.{◌≡◌, refl, sym, ap, ◌∙◌, subst, fun_ext}
pub use mathlib.Core.Logic.{◌≢◌, ◌↔◌, ◌⊎◌, inl, inr}
pub use mathlib.Core.Bool.{Bool, true, false, not, ◌&&◌, ◌||◌}
pub use mathlib.Core.Option.{Option, none, some}
pub use mathlib.Core.List.{List, [], ◌∷◌, ◌++◌}
pub use native.Mathlib.Omega.{arith}
