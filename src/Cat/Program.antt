-- ===== src/Cat/Program.antt =====
-- cat+grep/mycat.c: `count_lines` (lines 157 to 187) and `list_routine` (lines 82 to 131) on the bytes
-- of a file. `getline` is taken not to fail, and a line to be shorter than 2 ^ 31 bytes.
use os_tasks.Base.{
  newline, lines, has, before_zero, digits, ℕ, zero, suc, ◌+◌, ◌-◌, ◌/◌, true, false, ltb, List, [],
  ◌∷◌, ◌++◌, length, take, replicate, if◌then◌else◌,
}

abbrev pub flag_num : ℕ
flag_num = 1

abbrev pub flag_nenum : ℕ
flag_nenum = 2

abbrev pub flag_end : ℕ
flag_end = 4

-- `while (l > 0) { line_align++; l /= 10; }`, with as many rounds as `l` and one more.
unfoldable pub align_loop : ℕ → ℕ → ℕ → ℕ
align_loop zero l line_align = line_align
align_loop (suc fuel) l line_align = elim (ltb 0 l) [
  | true ↦ align_loop fuel (l / 10) (line_align + 1)
  | false ↦ line_align
]

unfoldable pub count_nonempty : List (List ℕ) → ℕ
count_nonempty [] = 0
count_nonempty (l ∷ ls) = if ltb 1 (length l) then count_nonempty ls + 1 else count_nonempty ls

-- `line_align` and `neline_align` afterwards.
pub record Aligns : Type 0 where
  pub line_align : ℕ
  pub neline_align : ℕ

unfoldable pub align : ℕ → ℕ
align l = align_loop (l + 1) l 0

unfoldable pub count_lines : List ℕ → Aligns
count_lines content = record {
  line_align = align (length (lines content));
  neline_align = align (count_nonempty (lines content));
}

-- `%*zu` of `printf`, and `%.*s` of bytes that may have a 0.
abbrev pub number : ℕ → ℕ → List ℕ
number width n = let ds = digits n in replicate (width - length ds) b' ' ++ ds

-- What is printed for a line behind its number.
unfoldable pub line_text : ℕ → List ℕ → List ℕ
line_text flags line =
    before_zero (take (length line - 1) line)
    ++ (if has flags flag_end then b'$' ∷ newline ∷ [] else newline ∷ [])

-- The loop over the lines, with the counters `lines` and `nelines`.
unfoldable pub print_lines : ℕ → Aligns → ℕ → ℕ → List (List ℕ) → List ℕ
print_lines flags a n ne [] = []
print_lines flags a n ne (line ∷ rest) = elim (has flags flag_nenum) [
  | true ↦ elim (ltb 1 (length line)) [
    | true ↦
        (b' ' ∷ b' ' ∷ b' ' ∷ number a.neline_align ne)
        ++ (b'\t' ∷ line_text flags line)
        ++ print_lines flags a n (ne + 1) rest
    | false ↦ line_text flags line ++ print_lines flags a n ne rest
  ]
  | false ↦ elim (has flags flag_num) [
    | true ↦
        (b' ' ∷ b' ' ∷ number a.line_align n)
        ++ (b'\t' ∷ line_text flags line)
        ++ print_lines flags a (n + 1) ne rest
    | false ↦ line_text flags line ++ print_lines flags a n ne rest
  ]
]

-- What is printed of a file with these bytes.
unfoldable pub list_routine : ℕ → List ℕ → List ℕ
list_routine flags content = print_lines flags (count_lines content) 1 1 (lines content)
