-- ===== src/Base.antt =====
-- The names that the other modules share: the libraries' names passed on, and those of the
-- children. Tests has the Boolean tests, Lists the list lemmas, Text the functions of Go's
-- `strings` package that the program calls, Decimal those of `strconv`.
mod Tests
mod Lists
mod Strings
pub mod Decimal
pub mod Spaces
pub mod Int
pub use Tests.*
pub use Lists.*
unfoldable pub use Strings.{
  Text, codes, eq_text, has_prefix, has_suffix, contains, is_space, drop_while, push_head,
  trim_left, trim_right, trim_space, split_on, replace_char, to_lower, equal_fold, Env, getenv,
  count_char,
}
pub use Strings.{
  eq_text_refl, eq_text→eq, has_prefix-append, contains-append, contains-append_left,
  has_prefix-weaken,
}
pub use Prim.Native.Nat.{ℕ, zero, suc, ◌+◌, ◌-◌, ◌*◌, ◌/◌, ◌%◌, ◌^◌, ◌≤◌, ◌<◌}
pub use mathlib.Core.Path.{◌≡◌, refl, sym, ap, subst, ◌∙◌, fun_ext, ◌≡⟨◌⟩◌, ◌∎}
pub use mathlib.Core.Logic.{◌≢◌, ◌↔◌, ◌⊎◌, inl, inr}
pub use mathlib.Core.Bool.{Bool, true, false, not, ◌&&◌, ◌||◌}
pub use mathlib.Core.Option.{Option, none, some}
pub use mathlib.Core.List.{
  List, [], ◌∷◌, ◌++◌, map, reverse, append_assoc, append-nil, reverse-append, reverse-reverse,
  reverse-cons,
}
pub use native.Mathlib.Omega.{arith}
