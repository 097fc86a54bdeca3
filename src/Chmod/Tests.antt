-- ===== src/Chmod/Tests.antt =====
-- Runs of the functions of chmod/mychmod.c at fixed inputs.
use os_tasks.Base.{
  ◌>>=◌, NoNul, ℕ, ◌∷◌, [], ◌≡◌, ◌≢◌, ◌⊎◌, inl, inr, refl, sym, ◌∙◌, ok, fault, failure, false,
  ◌==◌, ◌%◌, ◌^◌, ◌-◌, ◌<◌, arith, bit, Option, none, some, if◌then◌else◌,
}
use os_tasks.Chmod.State.{
  Ptr, null, initial_globals, append, erase, update_at, at_end, reset_parsed_mode, add_changed_perm,
}
use os_tasks.Chmod.Parser.{
  parse_mode_str, automaton, step, step_entry, step_permgroups, step_modificator, step_copied_group,
  step_perm, advance, octal_span, permgroup_flag, perm_flag, copied_flag, signed,
}
use os_tasks.Chmod.Grammar.{
  Symbolic, of, user, group, plus, minus, last, more, perms, copied, write, exec, text,
}
use os_tasks.Chmod.Clear.{clear_changed_perm, clear_changed_perm-parse_mode_str}
use os_tasks.Chmod.Covers.{run_symbolic}
use os_tasks.Chmod.Parse.{parsed, all_ones, parse_mode_str-decides}
use os_tasks.Chmod.Program.{CString, FileModes, exit_failure, main}
use os_tasks.Chmod.Correct.{visit, main-symbolic, main_dangling}
use os_tasks.Chmod.Octal.{octal_text, main-octal, main_invalid, main_copy_ignored}

-- "u+r-x"
parse_two :
    parse_mode_str (λ _. 0) (b'u' ∷ b'+' ∷ b'r' ∷ b'-' ∷ b'x' ∷ []) initial_globals
    ≡ ok (
      record initial_globals {
        perm_groups = 2;
        perms = 1;
        end_perms = 2;
        nodes =
            record { modificator = append; contains_copied_pg = false; flags = 1; next = 2 }
            ∷ record { modificator = erase; contains_copied_pg = false; flags = 4; next = 0 }
            ∷ [];
      },
      2 ^ 32 - 1,
    )
unfolding parse_mode_str automaton step step_entry step_permgroups step_modificator
    step_copied_group step_perm advance octal_span permgroup_flag perm_flag copied_flag signed
    update_at at_end reset_parsed_mode add_changed_perm
parse_two = refl

-- A disk with one file, "f"; the state is its mode.
abbrev stat_f : ℕ → CString → Option ℕ
stat_f mode [] = none
stat_f mode (c ∷ []) = if c == b'f' then some mode else none
stat_f mode (c ∷ c' ∷ path) = none

abbrev disk : FileModes ℕ
disk = record {
  stat = stat_f;
  chmod = λ mode path new. elim (stat_f mode path) [ none ↦ none | some old ↦ some new ];
}

abbrev zeroed : ℕ → Ptr
zeroed n = 0

abbrev file_f : CString
file_f = b'f' ∷ []

-- "u+x-w"
abbrev u_plus_x : Symbolic
u_plus_x = record {
  who = of user ∷ [];
  clauses = more plus (perms exec []) (last minus (perms write []));
}

main-symbolic_example :
    (f : ℕ → ℕ) × (main disk zeroed (text u_plus_x ∷ file_f ∷ []) 420
      ≡ ok (visit disk f (file_f ∷ []) 420))
    × ((mode k : ℕ) → k < 32 → bit (f mode) k ≡ run_symbolic k u_plus_x (bit mode k))
main-symbolic_example = main-symbolic disk zeroed u_plus_x refl file_f [] 420

-- "u=r"
abbrev u_eq_r : CString
u_eq_r = b'u' ∷ b'=' ∷ b'r' ∷ []

u_eq_r-NoNul : NoNul u_eq_r
u_eq_r-NoNul = (omega arith, (omega arith, (omega arith, tt)))

parse_mode_str-decides_example :
    ((m : Symbolic) × (u_eq_r ≡ text m)
      × (parse_mode_str zeroed u_eq_r initial_globals ≡ ok (parsed zeroed m, all_ones)))
    ⊎ ((parse_mode_str zeroed u_eq_r initial_globals ≡ failure)
        × ((m : Symbolic) → u_eq_r ≢ text m))
parse_mode_str-decides_example =
    parse_mode_str-decides zeroed u_eq_r u_eq_r-NoNul (unfold octal_span in refl)

parse_u_eq_r : parse_mode_str zeroed u_eq_r initial_globals ≡ failure
unfolding parse_mode_str automaton step step_entry step_permgroups step_modificator
    step_copied_group step_perm advance octal_span permgroup_flag perm_flag copied_flag signed
    update_at at_end reset_parsed_mode add_changed_perm
parse_u_eq_r = refl

other_than_u_eq_r : (m : Symbolic) → u_eq_r ≢ text m
other_than_u_eq_r =
    elim (parse_mode_str-decides zeroed u_eq_r u_eq_r-NoNul (unfold octal_span in refl)) [
      | inl (m, _, accepted) ↦ absurd (cc (sym parse_u_eq_r ∙ accepted))
      | inr (_, other) ↦ other
    ]

main_invalid_example : main disk zeroed (u_eq_r ∷ file_f ∷ []) 420 ≡ ok (exit_failure, 420)
main_invalid_example =
    main_invalid disk zeroed u_eq_r u_eq_r-NoNul (unfold octal_span in refl) other_than_u_eq_r
      file_f [] 420

main-octal_example :
    main disk zeroed (octal_text 3 420 ∷ file_f ∷ []) 0
    ≡ ok (visit disk (λ _. 420 % 2 ^ 32) (file_f ∷ []) 0)
main-octal_example = main-octal disk zeroed 3 420 (omega arith) (omega arith) file_f [] 0

-- "g+u"
abbrev g_plus_u : Symbolic
g_plus_u = record { who = of group ∷ []; clauses = last plus (copied user []) }

main_copy_ignored_example :
    (f : ℕ → ℕ) × (main disk zeroed (text g_plus_u ∷ file_f ∷ []) 420
      ≡ ok (visit disk f (file_f ∷ []) 420))
    × ((mode k : ℕ) → k < 32 → bit (f mode) k ≡ bit mode k)
main_copy_ignored_example =
    main_copy_ignored disk zeroed user group plus (λ e. cc) refl file_f [] 420

abbrev dirty : ℕ → Ptr
dirty n = 9

main_dangling_example : main disk dirty (text u_plus_x ∷ file_f ∷ []) 420 ≡ fault
main_dangling_example = main_dangling disk dirty u_plus_x (omega arith) file_f [] 420 420 refl

clear_changed_perm-parse_mode_str_example :
    parse_mode_str zeroed (text u_plus_x) initial_globals >>= (λ (g, mask). clear_changed_perm g)
    ≡ ok (record (parsed zeroed u_plus_x) { perms = null; end_perms = null }, 2 ∷ 1 ∷ [])
clear_changed_perm-parse_mode_str_example = clear_changed_perm-parse_mode_str zeroed u_plus_x refl
