-- ===== src/Common.antt =====
-- The names that all modules share: the libraries', passed on, and the helpers of its children.
mod Logic
mod Lists
mod Text
mod Int
pub use Logic.*
pub use Lists.*
pub use Text.{Bytes, codes, bytes_eq_iff, is_word, lower_byte, upper_byte}
pub use Int.{ℤ, pos, negsuc, natural, is_digit}
unfoldable pub use Int.{format_int, is_number, atoi}
unfoldable pub use Text.{
  bytes_eq, any_word, has_prefix, is_ascii, index_of, trim_cutset, trim_right, trim_space, join,
  set_at, cut, trim_prefix,
}
pub use Prim.Native.Nat.{ℕ, zero, suc, ◌+◌, ◌-◌, ◌*◌, ◌/◌, ◌%◌, ◌^◌, ◌≤◌, ◌<◌}
pub use Prim.Native.String.{String}
pub use mathlib.Core.Path.{◌≡◌, refl, sym, ap, ap₂, subst, ◌∙◌}
pub use mathlib.Core.Logic.{◌≢◌, ◌↔◌, ◌⊎◌, inl, inr}
pub use mathlib.Core.Bool.{Bool, true, false, not, ◌&&◌, ◌||◌}
pub use mathlib.Core.Option.{Option, none, some}
pub use mathlib.Core.List.{List, [], ◌∷◌, ◌++◌, map}
pub use native.Mathlib.Omega.{arith}
