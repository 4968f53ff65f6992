-- ===== src/Base.antt =====
-- The names that the components share: the libraries' own, passed on, and those of the children:
-- Boolean tests, list measures and machine words.
mod Tests
mod Lists
mod Words
mod Results
mod Int
mod Maps
pub mod Keyed
pub mod Entries
pub use Tests.*
pub use Lists.*
unfoldable pub use Words.*
pub use Results.*
pub use Int.*
unfoldable pub use Maps.*
pub use Prim.Native.String.{String, ◌++◌ as ◌<>◌}
pub use Prim.Native.Nat.{ℕ, zero, suc, ◌+◌, ◌-◌, ◌*◌, ◌/◌, ◌%◌, ◌^◌, ◌≤◌, ◌<◌, min, max}
pub use mathlib.Core.Path.{◌≡◌, refl, sym, ap, subst, ◌∙◌}
pub use mathlib.Core.Logic.{◌≢◌, ◌↔◌, ◌⊎◌, inl, inr}
pub use mathlib.Core.Bool.{Bool, true, false, ◌&&◌, ◌||◌, not}
pub use mathlib.Core.Option.{Option, none, some}
pub use mathlib.Core.List.{List, [], ◌∷◌, ◌++◌, map}
pub use native.Mathlib.Omega.{arith}
