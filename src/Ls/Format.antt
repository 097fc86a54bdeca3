-- ===== src/Ls/Format.antt =====
-- ls/main.c: the texts that `_print_file` prints of the mode and of the name of a file.
use os_tasks.Base.{
  ℕ, zero, suc, ◌+◌, ◌-◌, ◌/◌, ◌%◌, ◌^◌, Bool, true, false, ◌&&◌, ◌||◌, ◌==◌, ltb, List, [], ◌∷◌,
  ◌++◌, digits, has, bit_and, if◌then◌else◌,
}

pub data Colors : Type 0 where
  col_file col_dir col_exec col_ln : Colors

-- `_COL_CODES`
abbrev pub col_code : Colors → ℕ
col_code col_file = 39
col_code col_dir = 34
col_code col_exec = 32
col_code col_ln = 36

-- `S_ISREG` and so on
abbrev pub is_type : ℕ → ℕ → Bool
is_type kind st_mode = bit_and st_mode 61440 == kind

abbrev pub s_ifreg : ℕ
s_ifreg = 32768

abbrev pub s_ifdir : ℕ
s_ifdir = 16384

abbrev pub s_ifblk : ℕ
s_ifblk = 24576

abbrev pub s_iflnk : ℕ
s_iflnk = 40960

abbrev pub s_ixusr : ℕ
s_ixusr = 64

-- The letter of the type and the colour in the long format.
unfoldable pub long_type : ℕ → ℕ × Colors
long_type st_mode =
    if is_type s_ifreg st_mode
    then (b'-', if has st_mode s_ixusr then col_exec else col_file)
    else if is_type s_ifdir st_mode
    then (b'd', col_dir)
    else if is_type s_ifblk st_mode
    then (b'b', col_file)
    else if is_type s_iflnk st_mode
    then (b'l', col_ln)
    else (b'?', col_file)

-- The colour in the short format.
unfoldable pub short_color : ℕ → Colors
short_color st_mode =
    if is_type s_ifreg st_mode && has st_mode s_ixusr
    then col_exec
    else if is_type s_ifdir st_mode
    then col_dir
    else if is_type s_iflnk st_mode
    then col_ln
    else col_file

-- `_RWX[i%3]`
abbrev pub rwx : ℕ → ℕ
rwx i = if i % 3 == 0 then b'r' else if i % 3 == 1 then b'w' else b'x'

-- `for (mask = S_IRUSR; mask > 0; mask >>= 1, i++)`: nine rounds until the mask is 0.
unfoldable pub permissions_loop : ℕ → ℕ → ℕ → ℕ → List ℕ
permissions_loop zero mask i st_mode = []
permissions_loop (suc fuel) mask i st_mode = elim (ltb 0 mask) [
  | true ↦
      (if has st_mode mask then rwx i else b'-') ∷ permissions_loop fuel (mask / 2) (i + 1) st_mode
  | false ↦ []
]

unfoldable pub permissions : ℕ → List ℕ
permissions st_mode = permissions_loop 10 256 0 st_mode

-- `strchr (name, ' ') != NULL`
abbrev pub has_space : List ℕ → Bool
has_space [] = false
has_space (c ∷ s) = c == b' ' || has_space s

abbrev pub escape : List ℕ → List ℕ
escape s = 27 ∷ b'[' ∷ s

-- The name in its colour, a name with a space between backticks.
unfoldable pub name_text : Colors → List ℕ → List ℕ
name_text color name =
    let quoted = if has_space name then (b'`' ∷ name) ++ b'`' ∷ [] else name in
    escape (b';' ∷ digits (col_code color) ++ b'm' ∷ []) ++ quoted ++ escape (b'0' ∷ b'm' ∷ [])

-- `%d` of an unsigned integer of 32 bits.
abbrev pub signed_text : ℕ → List ℕ
signed_text n = if ltb n (2 ^ 31) then digits n else b'-' ∷ digits (2 ^ 32 - n)
