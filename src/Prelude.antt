-- ===== src/Prelude.antt =====
-- The names that the other modules share: the libraries', passed on, and those of the children.
mod Tests
mod Equality
mod Lists
mod Strings
mod Int
mod Decimal
mod Dicts
pub use Tests.*
pub use Equality.{Eq, ◌==◌, nat_eq, list_eq, option_eq}
pub use Lists.*
pub use Strings.{
  Text, text_iff, option_text_iff, codes, starts_with-append, strip_prefix-append,
  append-strip_prefix,
}
unfoldable pub use Strings.{starts_with, strip_prefix, partition}
pub use Int.*
pub use Decimal.{is_digit, read-decimal, all_digits-decimal, decimal_cons}
unfoldable pub use Decimal.{read_digits, decimal}
pub use Dicts.{
  Dict, Distinct, lookup-append, length-erase-le, length-erase-lt, Distinct-erase, Distinct-last,
  lookup-insert, lookup-erase, dict_laws, ==_self, lookup-erase_self, lookup-insert_self,
}
unfoldable pub use Dicts.{lookup, insert, erase}
pub use Prim.Native.Nat.{ℕ, zero, suc, ◌+◌, ◌-◌, ◌*◌, ◌/◌, ◌%◌, ◌^◌, ◌≤◌, ◌<◌}
pub use Prim.Native.String.{String}
pub use mathlib.Core.Path.{◌≡◌, refl, sym, ap, ◌∙◌}
pub use mathlib.Core.Logic.{◌≢◌, ◌↔◌, ◌⊎◌, inl, inr}
pub use mathlib.Core.Bool.{Bool, true, false, not, ◌&&◌, ◌||◌}
pub use mathlib.Core.Option.{Option, none, some}
pub use mathlib.Core.List.{List, [], ◌∷◌, ◌++◌, map, append-nil, append_assoc}
pub use native.Mathlib.Omega.{arith}
