-- ===== src/Base/Strings.antt =====
-- What C's `printf` writes of numbers and strings, what `getline` reads, and tests of flags.
use Prim.Native.Nat.{ℕ, zero, suc, ◌+◌, ◌/◌, ◌%◌, bit_and}
use mathlib.Core.List.{List, [], ◌∷◌, ◌++◌}
use mathlib.Core.Bool.{Bool, true, false, not}
use os_tasks.Base.Tests.{ltb, ◌==◌}

abbrev pub digits_loop : ℕ → ℕ → List ℕ
digits_loop zero n = []
digits_loop (suc fuel) n = elim (ltb n 10) [
  | true ↦ (b'0' + n) ∷ []
  | false ↦ digits_loop fuel (n / 10) ++ (b'0' + n % 10) ∷ []
]

-- A number has no more digits than its value and one.
abbrev pub digits : ℕ → List ℕ
digits n = digits_loop (n + 1) n

-- What `%s` prints of bytes: those before the first 0.
unfoldable pub before_zero : List ℕ → List ℕ
before_zero [] = []
before_zero (c ∷ s) = elim (c == 0) [ true ↦ [] | false ↦ c ∷ before_zero s ]

-- `flags & flag`
abbrev pub has : ℕ → ℕ → Bool
has flags flag = not (bit_and flags flag == 0)

abbrev pub newline : ℕ
newline = 10

-- What `getline` returns one after another: each line with the newline at its end, if it has one.
abbrev pub join_first : ℕ → List (List ℕ) → List (List ℕ)
join_first c [] = (c ∷ []) ∷ []
join_first c (l ∷ ls) = (c ∷ l) ∷ ls

abbrev pub lines : List ℕ → List (List ℕ)
lines [] = []
lines (c ∷ s) = elim (c == newline) [ true ↦ (c ∷ []) ∷ lines s | false ↦ join_first c (lines s) ]
