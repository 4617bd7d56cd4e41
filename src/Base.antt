-- ===== src/Base.antt =====
-- The names that the development shares: the libraries', passed on, and those of four children.
mod Tests
mod Text
mod Results
mod Tables
pub mod Ensures
pub mod Finds
pub use Tests.*
unfoldable pub use Text.{
  codes, length, all, any, text_in, is_hex, is_sha256_hex, is_ascii, is_space, is_blank, is_uuid,
}
pub use Results.*
unfoldable pub use Tables.{Table, lookup, append, update, exists, exists_other, update_where}
pub use Tables.{
  lookup-append, lookup-update, lookup-update_where, exists-lookup, update_at, update_elsewhere,
  append_at, append_elsewhere, all_updated, same_value,
}
pub use Prim.Native.Nat.{ℕ, zero, suc, ◌+◌, ◌-◌, ◌*◌, ◌/◌, ◌%◌, ◌≤◌, ◌<◌}
pub use Prim.Native.String.{String, len}
pub use mathlib.Core.Path.{◌≡◌, refl, sym, ap, ◌∙◌, subst}
pub use mathlib.Core.Logic.{◌≢◌, ◌↔◌, ◌⊎◌, inl, inr}
pub use mathlib.Core.Bool.{Bool, true, false, ◌&&◌, ◌||◌, not}
pub use mathlib.Core.Option.{Option, none, some}
pub use mathlib.Core.List.{List, [], ◌∷◌, ◌++◌, map}
pub use native.Mathlib.Omega.{arith}
pub use text.Mathlib.Text.{◌==◌}
pub use text.Mathlib.TextEquality.{eq_iff}
pub use text.Mathlib.TextPositions.{eq_refl}
