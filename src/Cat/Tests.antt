-- ===== src/Cat/Tests.antt =====
-- Runs of the functions of cat+grep/mycat.c at fixed inputs.
use os_tasks.Base.{List, some, newline, before_zero, ◌∷◌, [], ◌++◌, ◌≡◌, refl, ℕ, arith}
use os_tasks.Cat.Program.{
  align, align_loop, count_nonempty, count_lines, line_text, print_lines, list_routine,
}
use os_tasks.Cat.Options.{number_all, number_nonempty, mark_end, main, letters}
use os_tasks.Cat.Options.{main-letters}
use os_tasks.Cat.Printed.{list_routine-no_flags}

-- `mycat -n -E` of "a", an empty line and "b".
numbered :
    list_routine 5 (97 ∷ 10 ∷ 10 ∷ 98 ∷ 10 ∷ [])
    ≡ 32 ∷ 32 ∷ 49 ∷ 9 ∷ 97 ∷ 36 ∷ 10 ∷ 32 ∷ 32 ∷ 50 ∷ 9 ∷ 36 ∷ 10 ∷ 32 ∷ 32 ∷ 51 ∷ 9 ∷ 98 ∷ 36 ∷ 10
      ∷ []
unfolding align align_loop count_nonempty count_lines before_zero line_text print_lines list_routine
numbered = refl

list_routine-no_flags_example :
    list_routine 0 ((97 ∷ 10 ∷ []) ++ 98 ∷ []) ≡ (97 ∷ 10 ∷ []) ++ newline ∷ []
list_routine-no_flags_example =
    list_routine-no_flags (97 ∷ 10 ∷ []) 98 (omega arith, (omega arith, tt))

-- Three lines, two of them not empty.
abbrev three_lines : List ℕ
three_lines = b'a' ∷ 10 ∷ 10 ∷ b'b' ∷ 10 ∷ []

-- `mycat -n -b -E` and `mycat -E -b`.
main-letters_example :
    main
      (λ f. some three_lines)
      4
      (letters (number_all ∷ number_nonempty ∷ mark_end ∷ []))
      (some [])
    ≡ main (λ f. some three_lines) 4 (letters (mark_end ∷ number_nonempty ∷ [])) (some [])
main-letters_example =
    main-letters (λ f. some three_lines) 4 (some []) (number_all ∷ number_nonempty ∷ mark_end ∷ [])
      (mark_end ∷ number_nonempty ∷ []) refl refl (λ e. cc)
