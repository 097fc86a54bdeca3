-- ===== src/Cat/Options.antt =====
-- cat+grep/mycat.c: `main` (lines 39 to 80) and the opening of the file (lines 84 to 90), and which
-- of the options count.
use os_tasks.Base.{
  ℕ, Bool, true, false, ◌||◌, ◌==◌, ltb, List, [], ◌∷◌, length, Option, none, some, has, lines,
  bit_or, if◌then◌else◌, Bool-cases, Option-cases, ◌+◌, inl, inr, ◌≡◌, refl, sym, ap, ◌∙◌,
}
use os_tasks.Cat.Program.{
  flag_num, flag_nenum, flag_end, Aligns, line_text, print_lines, list_routine, count_lines,
}

pub data ErrCode : Type 0 where
  err_invalidopt err_neargs err_file_not_found err_memerror : ErrCode

-- The exit with success behind the help text or behind the file, or `invoke_error`.
pub data Ended : Type 0 where
  helped : Ended
  printed : List ℕ → Ended
  stopped : ErrCode → Ended

-- `fopen` gives the bytes of a file, also of none (NULL) if it can. The letters of the options are
-- those that `getopt` gives, another character for an invalid one; then comes `argv[optind]`.
module _ (fopen : Option (List ℕ) → Option (List ℕ)) where
  unfoldable pub open_and_list : ℕ → Option (List ℕ) → Ended
  open_and_list flags f = elim (fopen f) [
    | none ↦ stopped err_file_not_found
    | some content ↦ printed (list_routine flags content)
  ]

  unfoldable pub main_loop : List ℕ → Option (List ℕ) → ℕ → Ended
  main_loop [] f flags = open_and_list flags f
  main_loop (option ∷ options) f flags = elim (option == b'h') [
    | true ↦ helped
    | false ↦ elim (option == b'n') [
      | true ↦ main_loop options f (bit_or flags flag_num)
      | false ↦ elim (option == b'b') [
        | true ↦ main_loop options f (bit_or flags flag_nenum)
        | false ↦ elim (option == b'E') [
          | true ↦ main_loop options f (bit_or flags flag_end)
          | false ↦ stopped err_invalidopt
        ]
      ]
    ]
  ]

  unfoldable pub main : ℕ → List ℕ → Option (List ℕ) → Ended
  main argc options f = if ltb argc 2 then stopped err_neargs else main_loop options f 0

-- The options that set a flag.
pub data Letter : Type 0 where
  number_all number_nonempty mark_end : Letter

abbrev pub letter_byte : Letter → ℕ
letter_byte number_all = b'n'
letter_byte number_nonempty = b'b'
letter_byte mark_end = b'E'

abbrev pub letters : List Letter → List ℕ
letters [] = []
letters (l ∷ ls) = letter_byte l ∷ letters ls

-- Is the option given?
abbrev pub has_n : List Letter → Bool
has_n [] = false
has_n (number_all ∷ ls) = true
has_n (l ∷ ls) = has_n ls

abbrev pub has_b : List Letter → Bool
has_b [] = false
has_b (number_nonempty ∷ ls) = true
has_b (l ∷ ls) = has_b ls

abbrev pub has_e : List Letter → Bool
has_e [] = false
has_e (mark_end ∷ ls) = true
has_e (l ∷ ls) = has_e ls

-- The flags as a number.
abbrev flags_of : Bool → Bool → Bool → ℕ
flags_of x y z =
    bit_or (bit_or (if x then flag_num else 0) (if y then flag_nenum else 0))
      (if z then flag_end else 0)

set_n : (x y z : Bool) → bit_or (flags_of x y z) flag_num ≡ flags_of true y z
set_n true true true = refl
set_n true true false = refl
set_n true false true = refl
set_n true false false = refl
set_n false true true = refl
set_n false true false = refl
set_n false false true = refl
set_n false false false = refl

set_b : (x y z : Bool) → bit_or (flags_of x y z) flag_nenum ≡ flags_of x true z
set_b true true true = refl
set_b true true false = refl
set_b true false true = refl
set_b true false false = refl
set_b false true true = refl
set_b false true false = refl
set_b false false true = refl
set_b false false false = refl

set_e : (x y z : Bool) → bit_or (flags_of x y z) flag_end ≡ flags_of x y true
set_e true true true = refl
set_e true true false = refl
set_e true false true = refl
set_e true false false = refl
set_e false true true = refl
set_e false true false = refl
set_e false false true = refl
set_e false false false = refl

true_or : (x : Bool) → (x || true) ≡ true
true_or true = refl
true_or false = refl

or_false : (x : Bool) → (x || false) ≡ x
or_false true = refl
or_false false = refl

module _ (fopen : Option (List ℕ) → Option (List ℕ)) (f : Option (List ℕ)) where
  main_loop-letters :
      (ls : List Letter) (x y z : Bool)
      → main_loop fopen (letters ls) f (flags_of x y z)
        ≡ open_and_list fopen (flags_of (x || has_n ls) (y || has_b ls) (z || has_e ls)) f
  unfolding main_loop
  main_loop-letters [] x y z = rw (or_false x, or_false y, or_false z) refl
  main_loop-letters (number_all ∷ ls) x y z =
      rw (set_n x y z, true_or x) (main_loop-letters ls true y z)
  main_loop-letters (number_nonempty ∷ ls) x y z =
      rw (set_b x y z, true_or y) (main_loop-letters ls x true z)
  main_loop-letters (mark_end ∷ ls) x y z =
      rw (set_e x y z, true_or z) (main_loop-letters ls x y true)

flags_of-nenum : (x z : Bool) → has (flags_of x true z) flag_nenum ≡ true
flags_of-nenum true true = refl
flags_of-nenum true false = refl
flags_of-nenum false true = refl
flags_of-nenum false false = refl

flags_of-end : (x y z : Bool) → has (flags_of x y z) flag_end ≡ z
flags_of-end true true true = refl
flags_of-end true true false = refl
flags_of-end true false true = refl
flags_of-end true false false = refl
flags_of-end false true true = refl
flags_of-end false true false = refl
flags_of-end false false true = refl
flags_of-end false false false = refl

-- With `-b` the flag of `-n` and the number of the line make no difference.
print_lines_nenum :
    (f g : ℕ)
    → has f flag_nenum ≡ true
    → has g flag_nenum ≡ true
    → has f flag_end ≡ has g flag_end
    → (a : Aligns) (n ne : ℕ) (ls : List (List ℕ))
    → print_lines f a n ne ls ≡ print_lines g a n ne ls
unfolding print_lines line_text
print_lines_nenum f g hf hg same a n ne [] = refl
print_lines_nenum f g hf hg same a n ne (line ∷ rest) =
    let ih = λ (m : ℕ). print_lines_nenum f g hf hg same a n m rest in
    elim (Bool-cases (ltb 1 (length line))) [
      | inl long ↦ rw (hf, hg, long, print_lines, same, ih (ne + 1))
      | inr short ↦ rw (hf, hg, short, print_lines, same, ih ne)
    ]

routine_nenum :
    (x x' z : Bool) (content : List ℕ)
    → list_routine (flags_of x true z) content ≡ list_routine (flags_of x' true z) content
unfolding list_routine
routine_nenum x x' z content =
    print_lines_nenum (flags_of x true z) (flags_of x' true z) (flags_of-nenum x z)
      (flags_of-nenum x' z) (flags_of-end x true z ∙ sym (flags_of-end x' true z))
      (count_lines content) 1 1 (lines content)

open_nenum :
    (fopen : Option (List ℕ) → Option (List ℕ)) (f : Option (List ℕ)) (x x' y z : Bool)
    → (y ≡ false → x ≡ x')
    → open_and_list fopen (flags_of x y z) f ≡ open_and_list fopen (flags_of x' y z) f
unfolding open_and_list
open_nenum fopen f x x' false z h = ap (λ v. open_and_list fopen (flags_of v false z) f) (h refl)
open_nenum fopen f x x' true z h = elim (Option-cases (fopen f)) [
  | inl gone ↦ rw (gone, open_and_list) refl
  | inr (content, there) ↦ rw (there, open_and_list) (ap printed (routine_nenum x x' z content))
]

-- Of the options `-n`, `-b` and `-E` only this counts, not their order or their number: whether `-b` is
-- given, whether `-E` is, and without `-b` whether `-n` is.
pub main-letters :
    (fopen : Option (List ℕ) → Option (List ℕ)) (argc : ℕ) (f : Option (List ℕ))
    (ls rs : List Letter)
    → has_b ls ≡ has_b rs
    → has_e ls ≡ has_e rs
    → (has_b ls ≡ false → has_n ls ≡ has_n rs)
    → main fopen argc (letters ls) f ≡ main fopen argc (letters rs) f
unfolding main
main-letters fopen argc f ls rs same_b same_e same_n =
    let run : main_loop fopen (letters ls) f 0 ≡ main_loop fopen (letters rs) f 0 =
      main_loop-letters fopen f ls false false false
      ∙ open_nenum fopen f (has_n ls) (has_n rs) (has_b ls) (has_e ls) same_n
      ∙ (λ i. open_and_list fopen (flags_of (has_n rs) (same_b i) (same_e i)) f)
      ∙ sym (main_loop-letters fopen f rs false false false) in
    ap (λ r. if ltb argc 2 then stopped err_neargs else r) run
