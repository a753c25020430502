-- ===== src/Prelude.antt =====
-- Names that every module shares: the libraries', passed on, and those of the modules below.
mod Tests
mod Lists
mod Int
pub mod EqClass
pub mod Map
pub mod Text
pub mod Utf8
pub mod Decimal
pub use Tests.*
pub use Lists.*
pub use Int.*
pub use Prim.Native.Nat.{ℕ, zero, suc, ◌+◌, ◌-◌, ◌*◌, ◌/◌, ◌%◌, ◌≤◌, ◌<◌, min}
pub use mathlib.Core.Path.{◌≡◌, refl, sym, ap, subst, ◌∙◌, fun_ext}
pub use mathlib.Core.Logic.{◌≢◌, ◌↔◌, ◌⊎◌, inl, inr}
pub use mathlib.Core.Bool.{Bool, true, false, not, ◌&&◌, ◌||◌}
pub use mathlib.Core.Option.{Option, none, some}
pub use mathlib.Core.List.{List, [], ◌∷◌, ◌++◌, map, append-nil, map-append, append_assoc}
pub use native.Mathlib.Omega.{arith}
