-- ===== src/Base/Buffers.antt =====
-- Buffers of bytes, as memset, sprintf and strcat fill them and as `%s` prints them.
use Prim.Native.Nat.{ℕ, zero, suc, ◌+◌, ◌/◌, ◌%◌, ◌≤◌, ◌<◌}
use mathlib.Core.List.{List, [], ◌∷◌}
use mathlib.Core.Bool.{true, false}
use mathlib.Core.Option
use mathlib.Core.Option.{Option, none, some}
use mathlib.Core.Path.{◌≡◌, refl, ap, ◌∙◌}
use mathlib.Core.Logic.{inl, inr}
use native.Mathlib.Omega.{arith}
use os_tasks.Base.Tests.{ltb, ◌==◌, Bool-cases}
use os_tasks.Base.Lists.{length, NoNul, NoNul-append}
use os_tasks.Base.Strings.{digits_loop}

-- A buffer: the byte at each place.
abbrev pub Buffer : Type 0
Buffer = ℕ → ℕ

-- The buffer of zeros into which a string has been written.
unfoldable pub padded : List ℕ → Buffer
padded [] i = 0
padded (c ∷ s) zero = c
padded (c ∷ s) (suc i) = padded s i

-- What `%s` prints of a buffer from a place on, with so many places left; `none` if it reads past them.
unfoldable pub string_from : ℕ → Buffer → ℕ → Option (List ℕ)
string_from zero buf i = none
string_from (suc left) buf i = elim (buf i == 0) [
  | true ↦ some []
  | false ↦ Option.map (λ s. buf i ∷ s) (string_from left buf (i + 1))
]

pub padded_beyond : (s : List ℕ) (i : ℕ) → length s ≤ i → padded s i ≡ 0
unfolding padded
padded_beyond [] i h = refl
padded_beyond (c ∷ s) zero h = absurd (omega arith)
padded_beyond (c ∷ s) (suc i) h = padded_beyond s i (omega arith)

pub string_from-padded :
    (s : List ℕ) (left i : ℕ) (buf : Buffer)
    → NoNul s
    → length s < left
    → ((j : ℕ) → j ≤ length s → buf (i + j) ≡ padded s j)
    → string_from left buf i ≡ some s
unfolding string_from padded
string_from-padded s zero i buf h fits same = absurd (omega arith)
string_from-padded [] (suc left) i buf h fits same =
    let stop : buf i ≡ 0 = ap buf (omega arith) ∙ same 0 (omega arith) in
    rw (stop, string_from) refl
string_from-padded (c ∷ s) (suc left) i buf h fits same =
    let first : buf i ≡ c = ap buf (omega arith) ∙ same 0 (omega arith) in
    let byte : (c == 0) ≡ false = ground (arith, h.0) in
    let rest : string_from left buf (i + 1) ≡ some s =
      string_from-padded s left (i + 1) buf h.1 (omega arith)
        (λ j le. ap buf (omega arith) ∙ same (suc j) (omega arith)) in
    rw (first, byte, string_from, rest) (ap (λ d. some (d ∷ s)) first)

pub digits_loop-NoNul : (fuel n : ℕ) → NoNul (digits_loop fuel n)
digits_loop-NoNul zero n = tt
digits_loop-NoNul (suc fuel) n = elim (Bool-cases (ltb n 10)) [
  | inl one ↦ rw (one, digits_loop) ((λ e. omega arith), tt)
  | inr more ↦
      rw (more, digits_loop)
        (NoNul-append (digits_loop fuel (n / 10)) ((b'0' + n % 10) ∷ [])
          (digits_loop-NoNul fuel (n / 10)) ((λ e. omega arith), tt))
]
