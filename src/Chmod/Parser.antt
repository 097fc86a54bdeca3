-- ===== src/Chmod/Parser.antt =====
-- chmod/mychmod.c, `parse_mode_str` (lines 143 to 334). The string is a list of bytes other than 0,
-- read with the closing 0 at its end. The local `cur_char` keeps its value from one round of the
-- loop to the next, as its place on the stack does.
use os_tasks.Base.{
  ℕ, zero, suc, ◌+◌, ◌-◌, ◌*◌, ◌%◌, ◌^◌, Bool, true, false, ◌&&◌, ◌||◌, List, [], ◌∷◌, ◌++◌, ◌==◌,
  leb, ltb, if◌then◌else◌, length, get_elem?, bit_or, Outcome, ok, failure, out_of_fuel, or_fault,
  ◌>>=◌,
}
use os_tasks.Chmod.State.{
  States, Modificator, append, erase, pg_all, pg_user, pg_group, pg_others, p_read, p_write, p_exec,
  null, Ptr, Globals, at_end, reset_parsed_mode, add_changed_perm,
}

-- The loop's locals with the globals. `next_index` is `str_index + 1`, as `str_index` starts at -1.
pub record Config : Type 0 where
  pub state : States
  pub next_index : ℕ
  pub cur_char : ℕ
  pub globals : Globals

abbrev pub is_sign : ℕ → Bool
is_sign c = c == b'-' || c == b'+'

abbrev pub is_class : ℕ → Bool
is_class c = c == b'u' || c == b'g' || c == b'o'

abbrev pub is_letter : ℕ → Bool
is_letter c = c == b'r' || c == b'w' || c == b'x'

abbrev pub is_octal : ℕ → Bool
is_octal c = leb b'0' c && leb c b'7'

-- `strspn (s, "01234567")`
unfoldable pub octal_span : List ℕ → ℕ
octal_span [] = 0
octal_span (c ∷ s) = if is_octal c then suc (octal_span s) else 0

-- `strtoul (s, NULL, 8)` of a string of octal digits, at 64 bits: too large a value is ULONG_MAX.
unfoldable pub octal_value : ℕ → List ℕ → ℕ
octal_value acc [] = acc
octal_value acc (c ∷ s) = octal_value (acc * 8 + (c - b'0')) s

unfoldable pub strtoul_octal : List ℕ → ℕ
strtoul_octal s = let v = octal_value 0 s in if ltb v (2 ^ 64) then v else 2 ^ 64 - 1

-- The switch statements over `cur_char`.
unfoldable pub permgroup_flag : ℕ → ℕ
permgroup_flag c =
    if c == b'u'
    then pg_user
    else if c == b'g'
    then pg_group
    else if c == b'a'
    then pg_all
    else if c == b'o'
    then pg_others
    else 0

unfoldable pub copied_flag : ℕ → ℕ
copied_flag c =
    if c == b'u'
    then pg_user
    else if c == b'g'
    then pg_group
    else if c == b'o'
    then pg_others
    else 0

unfoldable pub perm_flag : ℕ → ℕ
perm_flag c =
    if c == b'r' then p_read else if c == b'w' then p_write else if c == b'x' then p_exec else 0

unfoldable pub signed : ℕ → Modificator → Modificator
signed c m = if c == b'+' then append else if c == b'-' then erase else m

module _ (leftover : ℕ → Ptr) (mode_str : List ℕ) where
  -- `str_index++; cur_char = mode_str[str_index];`
  unfoldable pub advance : Config → Outcome Config
  advance c = do
    x ← or_fault (get_elem? (mode_str ++ 0 ∷ []) c.next_index)
    ok (record c { cur_char = x; next_index = c.next_index + 1 })

  abbrev goto : States → Config → Outcome Config
  goto s c = ok (record c { state = s })

  unfoldable pub step_entry : Config → Outcome Config
  step_entry c = do
    c ← advance c
    if is_sign c.cur_char
        then goto States.set_modificator c
        else if is_class c.cur_char || c.cur_char == b'a'
        then goto States.set_permgroups c
        else failure

  unfoldable pub step_permgroups : Config → Outcome Config
  step_permgroups c =
      let g = c.globals in
      let groups = bit_or g.perm_groups (permgroup_flag c.cur_char) in
      goto States.entry (record c { globals = record g { perm_groups = groups } })

  unfoldable pub step_modificator : Config → Outcome Config
  step_modificator c = do
    g ← add_changed_perm leftover c.globals
    g ← at_end (λ n. record n { modificator = signed c.cur_char n.modificator }) g
    c ← advance (record c { globals = g })
    if is_class c.cur_char
        then (do
          g ← at_end (λ n. record n { contains_copied_pg = true }) c.globals
          goto States.set_copied_group (record c { globals = g }))
        else if is_letter c.cur_char
        then (do
          g ← at_end (λ n. record n { contains_copied_pg = false }) c.globals
          goto States.set_perm (record c { globals = g }))
        else if c.cur_char == 0
        then goto States.exit c
        else failure

  unfoldable pub step_copied_group : Config → Outcome Config
  step_copied_group c = do
    g ← at_end (λ n. record n { flags = bit_or n.flags (copied_flag c.cur_char) }) c.globals
    c ← advance (record c { globals = g })
    if is_class c.cur_char
        then goto States.set_copied_group c
        else if is_sign c.cur_char
        then goto States.set_modificator c
        else if c.cur_char == 0
        then goto States.exit c
        else failure

  unfoldable pub step_perm : Config → Outcome Config
  step_perm c = do
    g ← at_end (λ n. record n { flags = bit_or n.flags (perm_flag c.cur_char) }) c.globals
    c ← advance (record c { globals = g })
    if is_letter c.cur_char
        then goto States.set_perm c
        else if is_sign c.cur_char
        then goto States.set_modificator c
        else if c.cur_char == 0
        then goto States.exit c
        else failure

  -- One round of the `while` loop, and the loop. A byte is looked at in two rounds at most.
  unfoldable pub step : States → Config → Outcome Config
  step States.entry c = step_entry c
  step States.set_permgroups c = step_permgroups c
  step States.set_modificator c = step_modificator c
  step States.set_copied_group c = step_copied_group c
  step States.set_perm c = step_perm c
  step States.exit c = ok c

  unfoldable pub automaton : ℕ → Config → Outcome Globals
  automaton zero c = out_of_fuel
  automaton (suc fuel) c = elim c.state [
    | States.exit ↦ ok c.globals
    | s ↦ step s c >>= automaton fuel
  ]

  -- The rounds that `parse_mode_str` needs at most.
  abbrev pub rounds : ℕ
  rounds = 2 * length mode_str + 3

  -- The result is the new globals and the mask that is returned, a `mode_t` of 32 bits.
  unfoldable pub parse_mode_str : Globals → Outcome (Globals × ℕ)
  parse_mode_str g =
      if octal_span mode_str == length mode_str
      then ok (record g { is_number = true }, strtoul_octal mode_str % 2 ^ 32)
      else do
        let start : Config = record {
          state = States.entry;
          next_index = 0;
          cur_char = 0;
          globals = reset_parsed_mode g;
        }
        g ← automaton rounds start
        if g.perms == null then failure else ok (g, 2 ^ 32 - 1)
