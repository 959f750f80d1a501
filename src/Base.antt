-- ===== src/Base.antt =====
-- The names that the other modules share: the libraries', passed on, and those of the children.
mod Tests
mod Lists
mod Keys
mod Texts
pub mod Int
pub mod Ids
pub use Tests.*
pub use Lists.*
pub use Texts.{
  is_empty_text, texts_eq, has_suffix, to_upper, one_of, is_space, trim_left, cons_unless_space,
  trim_right, digits_value, unsigned_value, int_of_magnitude, true_texts, false_texts,
}
unfoldable pub use Texts.{trim_space, atoi, parse_bool}
unfoldable pub use Keys.{Key, Key-discrete, Map, empty_map, insert, delete}
pub use Keys.{lookup-insert_self, lookup-insert_ne, lookup-delete_self, lookup-delete_ne}
pub use Prim.Native.Nat.{ℕ, zero, suc, ◌+◌, ◌-◌, ◌*◌, ◌/◌, ◌%◌, ◌^◌, ◌≤◌, ◌<◌}
pub use mathlib.Core.Path.{◌≡◌, refl, sym, ap, ◌∙◌, fun_ext, subst}
pub use mathlib.Core.Logic.{◌≢◌, ◌↔◌, ◌⊎◌, inl, inr, ite, if_pos, if_neg}
pub use mathlib.Core.Bool.{Bool, true, false, not, ◌&&◌, ◌||◌}
pub use mathlib.Core.Option.{Option, none, some}
pub use mathlib.Core.List.{List, [], ◌∷◌, ◌++◌, map}
pub use native.Mathlib.Omega.{arith}
unfoldable pub use native.Mathlib.Decide.{dec_lt, dec_le, ℕ_discrete}
