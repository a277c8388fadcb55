-- ===== src/Common.antt =====
-- The names that the other modules share: the libraries' names, passed on, and those of the children.
mod Tests
mod Lists
mod Maps
mod Words
mod Results
mod Formats
pub use Tests.*
pub use Lists.*
pub use Maps.*
unfoldable pub use Maps.{lookup, delete, insert, str_beq}
pub use Words.*
unfoldable pub use Words.{add64, sub64}
pub use Results.*
pub use Formats.*
unfoldable pub use Formats.{le_bytes, of_le, be_bytes, of_be, encode_to_string, format_uint}
pub use Prim.Native.Nat.{ℕ, zero, suc, ◌+◌, ◌-◌, ◌*◌, ◌/◌, ◌%◌, ◌^◌, ◌≤◌, ◌<◌}
pub use mathlib.Core.Path.{◌≡◌, refl, sym, ap, subst, ◌∙◌}
pub use mathlib.Core.Logic.{◌≢◌, ◌↔◌, ◌⊎◌, inl, inr}
pub use mathlib.Core.Bool.{Bool, true, false, ◌&&◌, ◌||◌, not}
pub use mathlib.Core.Option.{Option, none, some}
pub use mathlib.Core.List.{List, [], ◌∷◌, ◌++◌, map}
pub use native.Mathlib.Omega.{arith}
