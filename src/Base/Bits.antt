-- ===== src/Base/Bits.antt =====
-- Binary digits of a number, and what `|`, `&` and `~` of C do to each digit.
use Prim.Native.Nat.{
  ℕ, zero, suc, ◌+◌, ◌-◌, ◌*◌, ◌/◌, ◌%◌, ◌^◌, ◌≤◌, ◌<◌, min, max, bit_and, bit_or, digits, bitwise,
  bit_and-bitwise, bit_or-bitwise,
}
use mathlib.Core.Path.{◌≡◌, refl, ap, ◌∙◌}
use native.Mathlib.Nat.{pow-suc, mul_assoc}
use native.Mathlib.Omega.{arith}

-- The digit of weight `2 ^ k`.
unfoldable pub bit : ℕ → ℕ → ℕ
bit n zero = n % 2
bit n (suc k) = bit (n / 2) k

pub bit-le-one : (n k : ℕ) → bit n k ≤ 1
unfolding bit
bit-le-one n zero = omega arith
bit-le-one n (suc k) = bit-le-one (n / 2) k

pub bit-zero : (k : ℕ) → bit 0 k ≡ 0
unfolding bit
bit-zero zero = refl
bit-zero (suc k) = bit-zero k

-- More rounds than the first operand has digits change nothing.
module _ (z : ℕ → ℕ) (op : ℕ → ℕ → ℕ) where
  digits-irrelevant : (n m a b : ℕ) → a ≤ n → a ≤ m → digits z op n a b ≡ digits z op m a b
  digits-irrelevant zero zero a b p q = refl
  digits-irrelevant zero (suc m) zero b p q = refl
  digits-irrelevant zero (suc m) (suc a) b p q = absurd (omega arith)
  digits-irrelevant (suc n) zero zero b p q = refl
  digits-irrelevant (suc n) zero (suc a) b p q = absurd (omega arith)
  digits-irrelevant (suc n) (suc m) zero b p q = refl
  digits-irrelevant (suc n) (suc m) (suc a) b p q =
      rw (digits-irrelevant n m (suc a / 2) (b / 2) (omega arith) (omega arith))

  bitwise_lowest :
      (a b : ℕ)
      → bitwise z op (suc a) b ≡ bitwise z op (suc a / 2) (b / 2) * 2 + op (suc a % 2) (b % 2)
  bitwise_lowest a b =
      rw (digits-irrelevant a (suc a / 2) (suc a / 2) (b / 2) (omega arith) (omega arith))

or_lowest : (a b : ℕ) → bit_or a b ≡ bit_or (a / 2) (b / 2) * 2 + max (a % 2) (b % 2)
or_lowest zero b = simp bit_or-bitwise (omega arith)
or_lowest (suc a) b = simp bit_or-bitwise (bitwise_lowest (λ y. y) max a b)

and_lowest : (a b : ℕ) → bit_and a b ≡ bit_and (a / 2) (b / 2) * 2 + min (a % 2) (b % 2)
and_lowest zero b = simp bit_and-bitwise (omega arith)
and_lowest (suc a) b = simp bit_and-bitwise (bitwise_lowest (λ y. 0) min a b)

pub bit-bit_or : (a b k : ℕ) → bit (bit_or a b) k ≡ max (bit a k) (bit b k)
unfolding bit
bit-bit_or a b zero = omega (arith, or_lowest a b)
bit-bit_or a b (suc k) =
    let half : bit_or a b / 2 ≡ bit_or (a / 2) (b / 2) = omega (arith, or_lowest a b) in
    rw half (bit-bit_or (a / 2) (b / 2) k)

pub bit-bit_and : (a b k : ℕ) → bit (bit_and a b) k ≡ min (bit a k) (bit b k)
unfolding bit
bit-bit_and a b zero = omega (arith, and_lowest a b)
bit-bit_and a b (suc k) =
    let half : bit_and a b / 2 ≡ bit_and (a / 2) (b / 2) = omega (arith, and_lowest a b) in
    rw half (bit-bit_and (a / 2) (b / 2) k)

-- `~ n` of an unsigned integer of `w` bits.
abbrev pub complement : ℕ → ℕ → ℕ
complement w n = 2 ^ w - 1 - n

pub bit-complement : (w n k : ℕ) → n < 2 ^ w → k < w → bit (complement w n) k ≡ 1 - bit n k
unfolding bit
bit-complement zero n k fits lt = absurd (omega arith)
bit-complement (suc w) n zero fits lt = omega (arith, pow-suc 2 w)
bit-complement (suc w) n (suc k) fits lt =
    let half : complement (suc w) n / 2 ≡ complement w (n / 2) = omega (arith, pow-suc 2 w) in
    rw half (bit-complement w (n / 2) k (omega (arith, pow-suc 2 w)) (omega arith))

bit_and_bounded : (n a b : ℕ) → a ≤ n → bit_and a b ≤ b
bit_and_bounded n zero b h = omega (arith, bit_and-bitwise 0 b)
bit_and_bounded zero (suc a) b h = absurd (omega arith)
bit_and_bounded (suc n) (suc a) b h =
    omega (arith, and_lowest (suc a) b, bit_and_bounded n (suc a / 2) (b / 2) (omega arith))

pub bit_and-le : (a b : ℕ) → bit_and a b ≤ b
bit_and-le a b = bit_and_bounded a a b (omega arith)

-- The test of one bit.
pub bit_and-pow : (n k : ℕ) → bit_and n (2 ^ k) ≡ bit n k * 2 ^ k
unfolding bit
bit_and-pow n zero =
    let high : bit_and (n / 2) (1 / 2) ≡ 0 = omega (arith, bit_and-le (n / 2) (1 / 2)) in
    let low : bit_and n 1 ≡ n % 2 = omega (arith, and_lowest n 1, high) in low ∙ omega arith
bit_and-pow n (suc k) =
    let half : 2 ^ suc k / 2 ≡ 2 ^ k = omega (arith, pow-suc 2 k) in
    let low : 2 ^ suc k % 2 ≡ 0 = omega (arith, pow-suc 2 k) in
    let high : bit_and (n / 2) (2 ^ suc k / 2) ≡ bit (n / 2) k * 2 ^ k =
      ap (bit_and (n / 2)) half ∙ bit_and-pow (n / 2) k in
    let twice : bit_and n (2 ^ suc k) ≡ bit (n / 2) k * 2 ^ k * 2 =
      omega (arith, and_lowest n (2 ^ suc k), high, low) in
    twice
    ∙ mul_assoc (bit (n / 2) k) (2 ^ k) 2
    ∙ ap (λ x. bit (n / 2) k * x) (omega (arith, pow-suc 2 k))
