-- ===== src/Prelude.antt =====
-- The names that the other modules share.
mod Tests
mod Lists
mod Maps
mod Texts
pub use Tests.*
pub use Lists.*
pub use Maps.{Map, keys, Distinct}
pub use Maps.{
  beq_refl, beq_ne, lookup-insert, lookup-remove, lookup-insert_self, lookup-insert_ne,
  has-eq-lookup, has_of_lookup, has-insert, has-remove, Distinct-insert, Distinct-remove,
  length-insert, length-remove-le, length-remove-has, Distinct-select, lookup-select,
}
unfoldable pub use Maps.{lookup, insert, remove, has}
unfoldable pub use Texts.{
  codes, lower_byte, to_lower, trim_dot, after_dot, split_dots, join_dots, has_prefix, has_suffix,
  contains, is_space, trim_left, trim_space, fields,
}
pub use Texts.{Result-cases, join-split_dots, Text, Result, ok, err, ◌>>=◌, ◌>>◌}
pub use Prim.Native.String.{String}
pub use Prim.Native.Nat.{ℕ, zero, suc, ◌+◌, ◌-◌, ◌*◌, ◌/◌, ◌%◌, ◌^◌, ◌≤◌, ◌<◌, min, max}
pub use mathlib.Core.Path.{◌≡◌, refl, sym, ap, ap₂, ◌∙◌, subst, fun_ext, ◌≡⟨◌⟩◌, ◌∎}
pub use mathlib.Core.Logic.{◌≢◌, ◌↔◌, ◌⊎◌, inl, inr}
pub use mathlib.Core.Bool.{Bool, true, false, not, ◌&&◌, ◌||◌}
pub use mathlib.Core.Option.{Option, none, some}
pub use mathlib.Core.List.{List, [], ◌∷◌, ◌++◌, map, append-nil, append_assoc}
pub use native.Mathlib.Omega.{arith}
