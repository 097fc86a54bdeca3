-- ===== src/Base/Lines.antt =====
-- The lines of a text, as `getline` gives them, are the lines of what they make together.
use mathlib.Core.Bool.{Bool, true, false, not, ◌&&◌, false≢true}
use mathlib.Core.List.{List, [], ◌∷◌, ◌++◌, append-nil}
use mathlib.Core.Path.{◌≡◌, refl, ap, ◌∙◌}
use mathlib.Core.Logic.{◌⊎◌, inl, inr}
use Prim.Native.Nat.{ℕ}
use os_tasks.Base.Tests.{◌==◌, Bool-cases}
use os_tasks.Base.Strings.{newline, join_first, lines}

abbrev pub concat : List (List ℕ) → List ℕ
concat [] = []
concat (l ∷ ls) = l ++ concat ls

-- A line with its newline, and the bytes of a last line without one.
unfoldable pub is_whole : List ℕ → Bool
is_whole [] = false
is_whole (c ∷ []) = c == newline
is_whole (c ∷ d ∷ s) = not (c == newline) && is_whole (d ∷ s)

unfoldable pub is_open : List ℕ → Bool
is_open [] = false
is_open (c ∷ []) = not (c == newline)
is_open (c ∷ d ∷ s) = not (c == newline) && is_open (d ∷ s)

-- All lines end with their newlines, but for the last, which may be without.
abbrev pub AreLines : List (List ℕ) → Type 0
AreLines [] = Unit
AreLines (l ∷ ls) = ((is_whole l ≡ true) × AreLines ls) ⊎ ((is_open l ≡ true) × (ls ≡ []))

join_first-AreLines :
    (c : ℕ) (ls : List (List ℕ)) → (c == newline) ≡ false → AreLines ls → AreLines (join_first c ls)
unfolding is_whole is_open
join_first-AreLines c [] e h = inr (ap not e, refl)
join_first-AreLines c ([] ∷ ls) e (inl (whole, rest)) = absurd (false≢true whole)
join_first-AreLines c ([] ∷ ls) e (inr (left, none)) = absurd (false≢true left)
join_first-AreLines c ((d ∷ l) ∷ ls) e (inl (whole, rest)) = inl (rw e whole, rest)
join_first-AreLines c ((d ∷ l) ∷ ls) e (inr (left, none)) = inr (rw e left, none)

pub lines-AreLines : (s : List ℕ) → AreLines (lines s)
unfolding is_whole
lines-AreLines [] = tt
lines-AreLines (c ∷ s) = elim (Bool-cases (c == newline)) [
  | inl e ↦ rw (e, lines) (inl (e, lines-AreLines s))
  | inr e ↦ rw (e, lines) (join_first-AreLines c (lines s) e (lines-AreLines s))
]

lines-whole : (l t : List ℕ) → is_whole l ≡ true → lines (l ++ t) ≡ l ∷ lines t
unfolding is_whole
lines-whole [] t h = cc
lines-whole (c ∷ []) t h = rw (h, lines) refl
lines-whole (c ∷ d ∷ l) t h = elim (Bool-cases (c == newline)) [
  | inl e ↦ absurd (false≢true (rw e at h))
  | inr e ↦ rw (e, lines) (ap (join_first c) (lines-whole (d ∷ l) t (rw e at h)))
]

lines-open : (l : List ℕ) → is_open l ≡ true → lines l ≡ l ∷ []
unfolding is_open
lines-open [] h = cc
lines-open (c ∷ []) h = elim (Bool-cases (c == newline)) [
  | inl e ↦ rw (e, lines) refl
  | inr e ↦ rw (e, lines) refl
]
lines-open (c ∷ d ∷ l) h = elim (Bool-cases (c == newline)) [
  | inl e ↦ absurd (false≢true (rw e at h))
  | inr e ↦ rw (e, lines) (ap (join_first c) (lines-open (d ∷ l) (rw e at h)))
]

pub lines-concat : (ls : List (List ℕ)) → AreLines ls → lines (concat ls) ≡ ls
lines-concat [] h = refl
lines-concat (l ∷ ls) (inl (whole, rest)) =
    lines-whole l (concat ls) whole ∙ ap (λ r. l ∷ r) (lines-concat ls rest)
lines-concat (l ∷ ls) (inr (left, none)) = rw none (rw (append-nil l) (lines-open l left))

-- The lines of a text make the text.
concat-join_first : (c : ℕ) (ls : List (List ℕ)) → concat (join_first c ls) ≡ c ∷ concat ls
concat-join_first c [] = refl
concat-join_first c (l ∷ ls) = refl

pub concat-lines : (s : List ℕ) → concat (lines s) ≡ s
concat-lines [] = refl
concat-lines (c ∷ s) = elim (Bool-cases (c == newline)) [
  | inl e ↦ rw (e, lines) (ap (λ r. c ∷ r) (concat-lines s))
  | inr e ↦ rw (e, lines) (concat-join_first c (lines s) ∙ ap (λ r. c ∷ r) (concat-lines s))
]
