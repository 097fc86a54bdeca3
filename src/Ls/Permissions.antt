-- ===== src/Ls/Permissions.antt =====
-- ls/main.c, the permissions of the long format (lines 216 to 220): they can be read back.
use os_tasks.Base.{
  lt→ltb, ℕ, zero, suc, ◌+◌, ◌*◌, ◌/◌, ◌%◌, ◌^◌, ◌<◌, true, false, ◌==◌, ltb, List, [], ◌∷◌, length,
  Option, none, some, has, bit, bit-le-one, bit_and-pow, if◌then◌else◌, Bool-cases, inl, inr, ◌≡◌,
  refl, ap, ◌∙◌, arith,
}
use native.Mathlib.Nat.{pow-suc}
use os_tasks.Ls.Format.{rwx, permissions_loop, permissions}

-- One digit of the permissions: its letter for 1, a dash for 0, and nothing else.
abbrev with_digit : ℕ → ℕ → ℕ → Option ℕ → Option ℕ
with_digit letter c place none = none
with_digit letter c place (some v) =
    if c == letter then some (place + v) else if c == b'-' then some v else none

-- The binary number that is written with these letters.
abbrev pub read_permissions : List ℕ → List ℕ → Option ℕ
read_permissions [] [] = some 0
read_permissions [] (c ∷ cs) = none
read_permissions (l ∷ ls) [] = none
read_permissions (l ∷ ls) (c ∷ cs) = with_digit l c (2 ^ length ls) (read_permissions ls cs)

abbrev letters : ℕ → ℕ → List ℕ
letters zero i = []
letters (suc k) i = rwx i ∷ letters k (i + 1)

length-letters : (k i : ℕ) → length (letters k i) ≡ k
length-letters zero i = refl
length-letters (suc k) i = ap suc (length-letters k (i + 1))

-- The low bits of a number.
abbrev low_bits : ℕ → ℕ → ℕ
low_bits zero n = 0
low_bits (suc k) n = bit n k * 2 ^ k + low_bits k n

rwx-ne-dash : (i : ℕ) → (b'-' == rwx i) ≡ false
rwx-ne-dash i = ground arith

pow_pos : (k : ℕ) → 0 < 2 ^ k
pow_pos zero = omega arith
pow_pos (suc k) = omega (arith, pow-suc 2 k, pow_pos k)

digit_bit :
    (n k i v : ℕ)
    → with_digit (rwx i) (if has n (2 ^ k) then rwx i else b'-') (2 ^ k) (some v)
      ≡ some (bit n k * 2 ^ k + v)
digit_bit n k i v = elim (Bool-cases (ltb 0 (bit n k))) [
  | inl one ↦
      let set : bit n k ≡ 1 = ground (arith, bit-le-one n k) in
      let there : has n (2 ^ k) ≡ true =
        ground (arith, bit_and-pow n k ∙ ap (λ x. x * 2 ^ k) set, pow_pos k) in
      let same : (rwx i == rwx i) ≡ true = ground arith in
      rw (there, same, set) (ap some (omega arith))
  | inr zero_bit ↦
      let clear : bit n k ≡ 0 = ground arith in
      let gone : has n (2 ^ k) ≡ false =
        ground (arith, bit_and-pow n k ∙ ap (λ x. x * 2 ^ k) clear) in
      rw (gone, rwx-ne-dash i, clear) (ap some (omega arith))
]

loop-reads :
    (k fuel i n : ℕ)
    → k + 1 < fuel
    → read_permissions (letters (suc k) i) (permissions_loop fuel (2 ^ k) i n)
      ≡ some (low_bits (suc k) n)
unfolding permissions_loop
loop-reads k zero i n h = absurd (omega arith)
loop-reads zero (suc zero) i n h = absurd (omega arith)
loop-reads zero (suc (suc fuel)) i n h = digit_bit n 0 i 0
loop-reads (suc k) (suc fuel) i n h =
    let go_on : ltb 0 (2 ^ suc k) ≡ true = lt→ltb 0 (2 ^ suc k) (pow_pos (suc k)) in
    let half : 2 ^ suc k / 2 ≡ 2 ^ k = omega (arith, pow-suc 2 k) in
    let ih = loop-reads k fuel (i + 1) n (omega arith) in
    rw (permissions_loop, go_on, half, ih, length-letters k (i + 1 + 1))
      (digit_bit n (suc k) i (low_bits (suc k) n))

-- The nine letters and dashes of the permissions, read as "rwxrwxrwx" with a dash for each bit that is
-- not set, give the low nine bits of the mode.
pub read_permissions-permissions :
    (st_mode : ℕ)
    → read_permissions
        (b'r' ∷ b'w' ∷ b'x' ∷ b'r' ∷ b'w' ∷ b'x' ∷ b'r' ∷ b'w' ∷ b'x' ∷ [])
        (permissions st_mode)
      ≡ some (st_mode % 512)
unfolding permissions bit
read_permissions-permissions st_mode =
    loop-reads 8 10 0 st_mode (omega arith) ∙ ap some (omega arith)
