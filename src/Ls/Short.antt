-- ===== src/Ls/Short.antt =====
-- ls/main.c: what the short format says of a file, and the order of the names, apart from the code.
use os_tasks.Base.{
  ℕ, ◌<◌, Bool, true, false, ◌&&◌, not, ◌==◌, ltb, lt→ltb, List, [], ◌∷◌, ◌++◌, has, digits,
  bit_and, Bool-cases, inl, inr, if◌then◌else◌, ◌≡◌, ◌≢◌, refl, ap, ap₂, ◌∙◌, arith,
}
use os_tasks.Ls.Format.{
  col_file, col_dir, col_exec, col_ln, col_code, short_color, has_space, name_text,
}
use os_tasks.Ls.Names.{strcmp, dirent_cmp, ComesFirst, above}

-- One name stands before another, or is it: byte by byte, a beginning before what goes on.
pub data Before : List ℕ → List ℕ → Type 0 where
  beginning : {t : List ℕ} → Before [] t
  smaller : {x y : ℕ} {s t : List ℕ} → x < y → Before (x ∷ s) (y ∷ t)
  equal_byte : {x : ℕ} {s t : List ℕ} → Before s t → Before (x ∷ s) (x ∷ t)

Before-strcmp : (s t : List ℕ) → Before s t → strcmp s t ≢ above
unfolding strcmp
Before-strcmp [] [] beginning = λ e. cc
Before-strcmp [] (y ∷ t) beginning = λ e. cc
Before-strcmp (x ∷ s) [] h = elim h [ ]
Before-strcmp (x ∷ s) (y ∷ t) (smaller h) =
    let apart : (x == y) ≡ false = ground (arith, h) in
    let less : ltb x y ≡ true = lt→ltb x y h in rw (apart, less, strcmp) (λ e. cc)
Before-strcmp (x ∷ s) (_ ∷ t) (equal_byte b) =
    let same : (x == x) ≡ true = ground arith in rw (same, strcmp) (Before-strcmp s t b)

pub Before-ComesFirst : (s t : List ℕ) → Before s t → ComesFirst s t
unfolding dirent_cmp
Before-ComesFirst s t b = Before-strcmp s t b

-- A directory is blue, a link cyan, a regular file that its owner may run green, any other file has
-- the colour of text.
abbrev pub color_text : ℕ → List ℕ
color_text st_mode = elim (bit_and st_mode 61440 == 16384) [
  | true ↦ b'3' ∷ b'4' ∷ []
  | false ↦ elim (bit_and st_mode 61440 == 40960) [
    | true ↦ b'3' ∷ b'6' ∷ []
    | false ↦ elim ((bit_and st_mode 61440 == 32768) && not (bit_and st_mode 64 == 0)) [
      | true ↦ b'3' ∷ b'2' ∷ []
      | false ↦ b'3' ∷ b'9' ∷ []
    ]
  ]
]

abbrev pub has_blank : List ℕ → Bool
has_blank [] = false
has_blank (c ∷ s) = elim (c == 32) [ true ↦ true | false ↦ has_blank s ]

-- A name with a space is set between backticks.
abbrev pub quoted : List ℕ → List ℕ
quoted name = elim (has_blank name) [ true ↦ 96 ∷ name ++ 96 ∷ [] | false ↦ name ]

-- The colour, the name, the end of the colour and two spaces.
abbrev pub entry_text : ℕ → List ℕ → List ℕ
entry_text st_mode name =
    27
    ∷ b'['
    ∷ b';'
    ∷ (color_text st_mode
        ++ b'm' ∷ []
        ++ quoted name
        ++ 27 ∷ b'[' ∷ b'0' ∷ b'm' ∷ []
        ++ b' ' ∷ b' ' ∷ [])

color-lem :
    (k : ℕ) (x : Bool)
    → digits (
        col_code (
          if (k == 32768) && x
          then col_exec
          else if k == 16384
          then col_dir
          else if k == 40960
          then col_ln
          else col_file))
      ≡ elim (k == 16384) [
        | true ↦ b'3' ∷ b'4' ∷ []
        | false ↦ elim (k == 40960) [
          | true ↦ b'3' ∷ b'6' ∷ []
          | false ↦ elim ((k == 32768) && x) [ true ↦ b'3' ∷ b'2' ∷ [] | false ↦ b'3' ∷ b'9' ∷ [] ]
        ]
      ]
color-lem k x = elim (Bool-cases (k == 16384)) [
  | inl dir ↦ let not_reg : (k == 32768) ≡ false = ground (arith, dir) in rw (dir, not_reg) refl
  | inr not_dir ↦ elim (Bool-cases (k == 40960)) [
    | inl link ↦
        let not_reg : (k == 32768) ≡ false = ground (arith, link) in
        rw (not_dir, link, not_reg) refl
    | inr not_link ↦ elim (Bool-cases ((k == 32768) && x)) [
      | inl run ↦ rw (not_dir, not_link, run) refl
      | inr other ↦ rw (not_dir, not_link, other) refl
    ]
  ]
]

short_color-color_text :
    (st_mode : ℕ) → digits (col_code (short_color st_mode)) ≡ color_text st_mode
unfolding short_color
short_color-color_text st_mode = color-lem (bit_and st_mode 61440) (has st_mode 64)

has_space-has_blank : (s : List ℕ) → has_space s ≡ has_blank s
has_space-has_blank [] = refl
has_space-has_blank (c ∷ s) = elim (Bool-cases (c == 32)) [
  | inl e ↦ rw (e, has_blank) refl
  | inr e ↦ rw (e, has_blank) (has_space-has_blank s)
]

pick : (b : Bool) (x y : List ℕ) → (if b then x else y) ≡ elim b [ true ↦ x | false ↦ y ]
pick true x y = refl
pick false x y = refl

pub name_text-entry_text :
    (st_mode : ℕ) (name : List ℕ)
    → name_text (short_color st_mode) name ++ b' ' ∷ b' ' ∷ [] ≡ entry_text st_mode name
unfolding name_text
name_text-entry_text st_mode name =
    let name_in : List ℕ → List ℕ → List ℕ = λ color q.
      27
      ∷ b'['
      ∷ b';'
      ∷ (color ++ b'm' ∷ [] ++ q ++ 27 ∷ b'[' ∷ b'0' ∷ b'm' ∷ [] ++ b' ' ∷ b' ' ∷ []) in
    ap₂ name_in (short_color-color_text st_mode) (
      pick (has_space name) (96 ∷ name ++ 96 ∷ []) name
      ∙ ap (λ b. elim b [ true ↦ 96 ∷ name ++ 96 ∷ [] | false ↦ name ]) (has_space-has_blank name))
