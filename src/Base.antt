-- ===== src/Base.antt =====
-- The names that the modules share: the libraries', passed on, and those of the children.
mod Tests
mod Lists
mod Outcome
mod Word
mod CString
mod Text
pub use Tests.*
pub use Lists.*
pub use Outcome.*
pub use Word.*
pub use CString.{
  Contains, strstr-split, strstr-Contains, strstr-longest, strcmp_eq-eq, strcmp_eq_refl,
  starts_with-append,
}
unfoldable pub use CString.{strcmp_eq, strstr, starts_with}
pub use Text.{
  codes, length-print_int, read_int-print_int, until_comma-append, without_comma-append,
  without_comma-print_int, all_ascii-append, all_ascii-print_int,
}
unfoldable pub use Text.{print_nat, print_int, read_int, until_comma, without_comma, all_ascii}
pub use Prim.Native.Nat.{ℕ, zero, suc, ◌+◌, ◌-◌, ◌*◌, ◌/◌, ◌%◌, ◌^◌, ◌≤◌, ◌<◌, min}
pub use mathlib.Core.Path.{◌≡◌, refl, sym, ap, ◌∙◌, fun_ext}
pub use mathlib.Core.Logic.{◌≢◌, ◌↔◌, ◌⊎◌, inl, inr}
pub use mathlib.Core.Bool.{Bool, true, false, not, ◌&&◌, ◌||◌}
pub use mathlib.Core.Option.{Option, none, some}
pub use mathlib.Core.List.{List, [], ◌∷◌, ◌++◌, map, append_assoc, append-nil}
pub use native.Mathlib.Omega.{arith}
