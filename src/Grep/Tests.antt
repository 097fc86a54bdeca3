-- ===== src/Grep/Tests.antt =====
-- Runs of cat+grep/mygrep.c with a pattern that is a first letter.
use os_tasks.Base.{
  AreLines, ℕ, ◌&&◌, ◌==◌, List, [], ◌∷◌, Option, none, some, lines, before_zero, concat,
  if◌then◌else◌, ◌≡◌, refl, arith,
}
use os_tasks.Grep.Program.{
  Match, matched, no_match, System, err_regex, helped, printed, stopped, print_matches,
  list_routine, main_loop, main,
}
use os_tasks.Grep.Printed.{Matching, keeps, select, list_routine-select, list_routine-pipe}

abbrev starts_with : ℕ → List ℕ → Match
starts_with c [] = no_match
starts_with c (d ∷ s) = if d == c then matched else no_match

-- An empty pattern is found in every line, and another one as its first letter.
abbrev compile : List ℕ → Option (List ℕ → Match)
compile [] = some (λ line. matched)
compile (c ∷ s) = if c == b'(' then none else some (starts_with c)

-- "ab", "b" and "a" in three lines.
abbrev text : List ℕ
text = b'a' ∷ b'b' ∷ 10 ∷ b'b' ∷ 10 ∷ b'a' ∷ []

abbrev kept : List ℕ
kept = b'a' ∷ b'b' ∷ 10 ∷ b'a' ∷ []

abbrev system : List ℕ → System
system input = record { regcomp = compile; fopen = λ name. some text; stdin = input; errno = 0 }

letter_a : main (system []) [] ((b'a' ∷ []) ∷ (b'f' ∷ []) ∷ []) ≡ printed kept
unfolding main main_loop list_routine print_matches before_zero
letter_a = refl

bad_pattern : main (system []) [] ((b'(' ∷ []) ∷ []) ≡ stopped [] err_regex
unfolding main main_loop list_routine
bad_pattern = refl

help : main (system []) (b'h' ∷ []) ((b'-' ∷ b'h' ∷ []) ∷ []) ≡ helped
unfolding main main_loop
help = refl

letter_a_routine : list_routine (system []) (b'a' ∷ []) (some []) ≡ printed kept
unfolding list_routine print_matches before_zero
letter_a_routine = refl

list_routine-select_example :
    (all matching : List (List ℕ)) × AreLines all
    × (concat all ≡ text)
    × Matching (starts_with b'a') all matching
    × (list_routine (system []) (b'a' ∷ []) (some []) ≡ printed (concat matching))
list_routine-select_example =
    list_routine-select (system []) (b'a' ∷ []) (some []) text (starts_with b'a') refl refl refl
      (omega arith, (omega arith, (omega arith, (omega arith, (omega arith, (omega arith, tt))))))

list_routine-pipe_example :
    list_routine (system kept) (b'b' ∷ []) none
    ≡ printed (
        concat
          (select (λ l. keeps (starts_with b'a') l && keeps (starts_with b'b') l) (lines text)))
list_routine-pipe_example =
    list_routine-pipe (system []) (system kept) (b'a' ∷ []) (b'b' ∷ []) (some []) text kept
      (starts_with b'a') (starts_with b'b') refl refl refl refl refl
      (omega arith, (omega arith, (omega arith, (omega arith, (omega arith, (omega arith, tt))))))
      letter_a_routine refl
