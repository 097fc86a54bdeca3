-- ===== src/Base.antt =====
-- Names that all modules share: the libraries' and those of the children, passed on.
mod Tests
mod Lists
mod Strings
mod Bits
mod Runs
mod Lines
mod Digits
mod Buffers
pub use Tests.*
pub use Lists.*
pub use Strings.{digits_loop, digits, has, newline, join_first, lines}
unfoldable pub use Strings.{before_zero}
pub use Runs.*
pub use Digits.{digits_loop-le}
pub use Buffers.{Buffer, padded_beyond, string_from-padded, digits_loop-NoNul}
unfoldable pub use Buffers.{padded, string_from}
pub use Lines.{concat, AreLines, lines-AreLines, lines-concat, concat-lines}
pub use Bits.{
  bit-le-one, bit-zero, bit-bit_or, bit-bit_and, bit-complement, complement, bit_and-le,
  bit_and-pow,
}
unfoldable pub use Bits.{bit}
pub use Prim.Native.Nat.{
  ℕ, zero, suc, ◌+◌, ◌-◌, ◌*◌, ◌/◌, ◌%◌, ◌^◌, ◌≤◌, ◌<◌, min, max, bit_and, bit_or,
}
pub use mathlib.Core.Path.{◌≡◌, refl, sym, ap, ap₂, subst, ◌∙◌}
pub use mathlib.Core.Logic.{◌≢◌, ◌↔◌, ◌⊎◌, inl, inr}
pub use mathlib.Core.Bool.{Bool, true, false, not, ◌&&◌, ◌||◌}
pub use mathlib.Core.Option.{Option, none, some}
pub use mathlib.Core.List.{List, [], ◌∷◌, ◌++◌, map, append_assoc, append-nil, map-append}
pub use native.Mathlib.Omega.{arith}
