-- ===== src/Base/Digits.antt =====
-- How many digits a number has.
use Prim.Native.Nat.{ℕ, zero, suc, ◌+◌, ◌/◌, ◌%◌, ◌^◌, ◌≤◌, ◌<◌}
use mathlib.Core.List.{[], ◌∷◌}
use mathlib.Core.Bool.{true}
use mathlib.Core.Path.{◌≡◌}
use mathlib.Core.Logic.{inl, inr}
use native.Mathlib.Nat.{pow-suc}
use native.Mathlib.Omega.{arith}
use os_tasks.Base.Tests.{ltb, lt→ltb, Bool-cases}
use os_tasks.Base.Lists.{length, length-append}
use os_tasks.Base.Strings.{digits_loop}

pub digits_loop-le : (fuel n w : ℕ) → n < 10 ^ suc w → length (digits_loop fuel n) ≤ suc w
digits_loop-le zero n w h = omega arith
digits_loop-le (suc fuel) n zero h =
    let one : ltb n 10 ≡ true = lt→ltb n 10 (omega (arith, pow-suc 10 0)) in
    rw (one, digits_loop, length) (omega arith)
digits_loop-le (suc fuel) n (suc w) h = elim (Bool-cases (ltb n 10)) [
  | inl one ↦ rw (one, digits_loop, length) (omega arith)
  | inr more ↦
      let ih : length (digits_loop fuel (n / 10)) ≤ suc w =
        digits_loop-le fuel (n / 10) w (omega (arith, pow-suc 10 (suc w))) in
      rw (more, digits_loop)
        (omega (arith, ih, length-append (digits_loop fuel (n / 10)) ((b'0' + n % 10) ∷ [])))
]
