-- ===== src/Cat/Printed.antt =====
-- cat+grep/mycat.c: what `list_routine` prints without flags, and the width of the line numbers.
use os_tasks.Base.{
  digits_loop-le, digits, length-append, length-replicate, replicate, newline, join_first, lines,
  before_zero, ℕ, zero, suc, ◌+◌, ◌-◌, ◌/◌, ◌^◌, ◌<◌, ◌≤◌, true, false, ◌==◌, ltb, List, [], ◌∷◌,
  ◌++◌, length, NoNul, ◌≡◌, ◌≢◌, refl, ap, ◌∙◌, arith, Bool-cases, inl, inr,
}
use native.Mathlib.Nat.{pow-suc}
use os_tasks.Cat.Program.{
  number, count_nonempty, align_loop, align, Aligns, line_text, print_lines, list_routine,
  count_lines,
}

-- A first line that is not empty.
abbrev Starts : List (List ℕ) → Type 0
Starts ls = (y : ℕ) × (l : List ℕ) × (rest : List (List ℕ)) × (ls ≡ (y ∷ l) ∷ rest)

join_first-Starts : (c : ℕ) (ls : List (List ℕ)) → Starts (join_first c ls)
join_first-Starts c [] = (c, [], [], refl)
join_first-Starts c (l ∷ ls) = (c, l, ls, refl)

lines-Starts : (c : ℕ) (s : List ℕ) → Starts (lines (c ∷ s))
lines-Starts c s = elim (Bool-cases (c == newline)) [
  | inl e ↦ rw (e, lines) (c, [], lines s, refl)
  | inr e ↦ rw (e, lines) (join_first-Starts c (lines s))
]

append-Starts : (s : List ℕ) (c : ℕ) → Starts (lines (s ++ c ∷ []))
append-Starts [] c = lines-Starts c []
append-Starts (x ∷ s) c = lines-Starts x (s ++ c ∷ [])

module _ (a : Aligns) (n ne : ℕ) where
  -- A byte in front of the first line is printed in front.
  print_join :
      (c : ℕ) (ls : List (List ℕ))
      → c ≢ 0
      → Starts ls
      → print_lines 0 a n ne (join_first c ls) ≡ c ∷ print_lines 0 a n ne ls
  unfolding print_lines line_text before_zero
  print_join c ls h (y, l, rest, e) =
      let kept : (c == 0) ≡ false = ground arith in
      let size : length (c ∷ y ∷ l) - 1 ≡ suc (length l) = omega arith in
      let size' : length (y ∷ l) - 1 ≡ length l = omega arith in
      rw (e, size, size', kept, before_zero)

  print-lines :
      (s : List ℕ) (c : ℕ)
      → NoNul s
      → print_lines 0 a n ne (lines (s ++ c ∷ [])) ≡ s ++ newline ∷ []
  unfolding print_lines line_text before_zero
  print-lines [] c h = elim (Bool-cases (c == newline)) [
    | inl e ↦ rw (e, lines, print_lines)
    | inr e ↦ rw (e, lines, print_lines)
  ]
  print-lines (x ∷ s) c h = elim (Bool-cases (x == newline)) [
    | inl e ↦
        let same : newline ≡ x = ground arith in
        rw (e, lines, print_lines)
          (ap (λ l. newline ∷ l) (print-lines s c h.1) ∙ ap (λ y. y ∷ s ++ newline ∷ []) same)
    | inr e ↦
        rw (e, lines)
          (print_join x (lines (s ++ c ∷ [])) h.0 (append-Starts s c)
            ∙ ap (λ l. x ∷ l) (print-lines s c h.1))
  ]

-- Without flags a file without zero bytes before its last byte is printed as it is, but for the last
-- byte: in its place a newline is printed, whether it was one or not.
pub list_routine-no_flags :
    (s : List ℕ) (c : ℕ) → NoNul s → list_routine 0 (s ++ c ∷ []) ≡ s ++ newline ∷ []
unfolding list_routine
list_routine-no_flags s c h = print-lines (count_lines (s ++ c ∷ [])) 1 1 s c h

align_loop-bounds :
    (fuel l k : ℕ)
    → 0 < l
    → l < fuel
    → (w : ℕ) × (align_loop fuel l k ≡ k + suc w) × (10 ^ w ≤ l) × (l < 10 ^ suc w)
unfolding align_loop
align_loop-bounds zero l k h f = absurd (omega arith)
align_loop-bounds (suc fuel) l k h f =
    let some_left : ltb 0 l ≡ true = ground arith in
    elim (Bool-cases (ltb 9 l)) [
      | inl more ↦
          let long : 9 < l = ground arith in
          let (w, e, low, high) =
            align_loop-bounds fuel (l / 10) (k + 1) (omega arith) (omega arith) in
          (
            suc w,
            rw (some_left, align_loop) (e ∙ omega arith),
            omega (arith, low, pow-suc 10 w),
            omega (arith, high, pow-suc 10 (suc w)),
          )
      | inr one ↦
          let short : l / 10 ≡ 0 = ground arith in
          (
            0,
            rw (some_left, align_loop, short) (ended fuel (k + 1) ∙ omega arith),
            omega arith,
            ground arith,
          )
    ]
  where
    ended : (fuel k : ℕ) → align_loop fuel 0 k ≡ k
    ended zero k = refl
    ended (suc fuel) k = refl

-- The width that `count_lines` computes is the number of the decimal digits: for a number of lines
-- that is not 0, the number has no fewer digits and no more.
pub align-bounds : (l : ℕ) → 0 < l → (w : ℕ) × (align l ≡ suc w) × (10 ^ w ≤ l) × (l < 10 ^ suc w)
unfolding align
align-bounds l h =
    let (w, e, low, high) = align_loop-bounds (l + 1) l 0 h (omega arith) in
    (w, e ∙ omega arith, low, high)

number-align : (t n : ℕ) → n ≤ t → 0 < t → length (number (align t) n) ≡ align t
number-align t n h some_left =
    let (w, e, low, high) = align-bounds t some_left in
    let ds = digits n in
    let short : length ds ≤ suc w = digits_loop-le (n + 1) n w (omega arith) in
    rw e (
      length-append (replicate (suc w - length ds) b' ') ds
      ∙ ap (λ k. k + length ds) (length-replicate (suc w - length ds) b' ')
      ∙ omega arith)

-- The numbers that are printed in front of the lines, from 1 up to the number of the lines or of the
-- lines that are not empty, all take as many places as `count_lines` has counted for them.
pub number-count_lines :
    (s : List ℕ) (n m : ℕ)
    → 0 < n
    → n ≤ length (lines s)
    → 0 < m
    → m ≤ count_nonempty (lines s)
    → (length (number (count_lines s).line_align n) ≡ (count_lines s).line_align)
      × (length (number (count_lines s).neline_align m) ≡ (count_lines s).neline_align)
unfolding count_lines
number-count_lines s n m n_pos n_le m_pos m_le = (
  number-align (length (lines s)) n n_le (omega arith),
  number-align (count_nonempty (lines s)) m m_le (omega arith),
)
