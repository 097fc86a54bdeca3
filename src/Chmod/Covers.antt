-- ===== src/Chmod/Covers.antt =====
-- What a symbolic mode of chmod/mychmod.c means for one bit of a file's mode. The bits are counted
-- from the lowest: x, w, r of the others, then of the group, then of the user.
use os_tasks.Base.{ℕ, ◌%◌, Bool, true, false, ◌&&◌, ◌||◌, ◌==◌, ltb, leb, List, [], ◌∷◌}
use os_tasks.Chmod.Grammar.{
  Sign, plus, minus, Class, user, group, others, Who, of, everyone, Letter, read, write, exec,
  Content, copied, perms, Clauses, bare, last, more, Symbolic,
}

abbrev pub class_covers : ℕ → Class → Bool
class_covers k others = ltb k 3
class_covers k group = leb 3 k && ltb k 6
class_covers k user = leb 6 k && ltb k 9

abbrev pub letter_covers : ℕ → Letter → Bool
letter_covers k exec = ltb k 9 && k % 3 == 0
letter_covers k write = ltb k 9 && k % 3 == 1
letter_covers k read = ltb k 9 && k % 3 == 2

abbrev pub any {ℓ} : {A : Type ℓ} → (A → Bool) → List A → Bool
any p [] = false
any p (x ∷ xs) = p x || any p xs

abbrev pub who_covers : ℕ → Who → Bool
who_covers k (of c) = class_covers k c
who_covers k everyone = ltb k 9

-- With no group named, all are meant.
abbrev pub meant : ℕ → List Who → Bool
meant k [] = ltb k 9
meant k (w ∷ ws) = any (who_covers k) (w ∷ ws)

-- A clause with `ugo` covers the whole triples of those classes.
abbrev pub content_covers : ℕ → Content → Bool
content_covers k (copied c cs) = any (class_covers k) (c ∷ cs)
content_covers k (perms p ps) = any (letter_covers k) (p ∷ ps)

abbrev pub put : Sign → Bool → ℕ → ℕ
put plus true v = 1
put minus true v = 0
put z false v = v

-- The clauses in turn, on a bit that the groups mean or do not.
abbrev pub run_clauses : ℕ → Bool → Clauses → ℕ → ℕ
run_clauses k who (bare z) v = v
run_clauses k who (last z t) v = put z (who && content_covers k t) v
run_clauses k who (more z t cl) v = run_clauses k who cl (put z (who && content_covers k t) v)

abbrev pub run_symbolic : ℕ → Symbolic → ℕ → ℕ
run_symbolic k m v = run_clauses k (meant k m.who) m.clauses v
