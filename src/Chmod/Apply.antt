-- ===== src/Chmod/Apply.antt =====
-- chmod/mychmod.c, `apply_modes` (lines 336 to 382). A `mode_t` has 32 bits.
use os_tasks.Base.{
  ℕ, zero, suc, ◌+◌, Bool, true, false, ◌==◌, if◌then◌else◌, bit_and, bit_or, complement, length,
  Outcome, ok, out_of_fuel, or_fault, ◌>>=◌, List,
}
use os_tasks.Chmod.State.{
  Modificator, undef, append, erase, pg_all, pg_user, pg_group, pg_others, p_read, p_write, p_exec,
  Ptr, null, ChangedPerm, Globals, node_at,
}

abbrev pub s_irusr : ℕ
s_irusr = 0o400

abbrev pub s_iwusr : ℕ
s_iwusr = 0o200

abbrev pub s_ixusr : ℕ
s_ixusr = 0o100

abbrev pub s_irgrp : ℕ
s_irgrp = 0o40

abbrev pub s_iwgrp : ℕ
s_iwgrp = 0o20

abbrev pub s_ixgrp : ℕ
s_ixgrp = 0o10

abbrev pub s_iroth : ℕ
s_iroth = 0o4

abbrev pub s_iwoth : ℕ
s_iwoth = 0o2

abbrev pub s_ixoth : ℕ
s_ixoth = 0o1

abbrev pub or3 : ℕ → ℕ → ℕ → ℕ
or3 a b c = bit_or (bit_or a b) c

-- `if (flags & flag) mask |= bits;`
abbrev pub or_if : ℕ → ℕ → ℕ → ℕ → ℕ
or_if flags flag bits mask = if bit_and flags flag == 0 then mask else bit_or mask bits

-- `bmask`, of the groups in `perm_groups`.
unfoldable pub group_mask : ℕ → ℕ
group_mask groups =
    let m1 = or_if groups pg_others (or3 s_iroth s_iwoth s_ixoth) 0 in
    let m2 = or_if groups pg_group (or3 s_irgrp s_iwgrp s_ixgrp) m1 in
    let m3 = or_if groups pg_user (or3 s_irusr s_iwusr s_ixusr) m2 in
    let m4 = or_if groups pg_all (or3 s_iroth s_iwoth s_ixoth) m3 in
    let m5 = or_if groups pg_all (or3 s_irgrp s_iwgrp s_ixgrp) m4 in
    or_if groups pg_all (or3 s_irusr s_iwusr s_ixusr) m5

-- `pmask` of a node, before it is cut down to `bmask`.
unfoldable pub perm_mask : Bool → ℕ → ℕ
perm_mask true flags =
    let m1 = or_if flags pg_others (or3 s_iroth s_iwoth s_ixoth) 0 in
    let m2 = or_if flags pg_group (or3 s_irgrp s_iwgrp s_ixgrp) m1 in
    or_if flags pg_user (or3 s_irusr s_iwusr s_ixusr) m2
perm_mask false flags =
    let m1 = or_if flags p_read (or3 s_iroth s_irgrp s_irusr) 0 in
    let m2 = or_if flags p_write (or3 s_iwoth s_iwgrp s_iwusr) m1 in
    or_if flags p_exec (or3 s_ixoth s_ixgrp s_ixusr) m2

-- The change that one node makes to `initial_mode`.
unfoldable pub change : Modificator → ℕ → ℕ → ℕ
change append pmask mode = bit_or mode pmask
change erase pmask mode = bit_and mode (complement 32 pmask)
change undef pmask mode = mode

unfoldable pub apply_node : ℕ → ChangedPerm → ℕ → ℕ
apply_node bmask i mode =
    change i.modificator (bit_and (perm_mask i.contains_copied_pg i.flags) bmask) mode

-- The `for` loop from the node at `p` on. A list without a cycle has a round for each node and one
-- more for NULL.
unfoldable pub apply_loop : ℕ → ℕ → List ChangedPerm → Ptr → ℕ → Outcome ℕ
apply_loop zero bmask nodes p mode = out_of_fuel
apply_loop (suc fuel) bmask nodes p mode = elim (p == null) [
  | true ↦ ok mode
  | false ↦ or_fault (node_at p nodes) >>= λ i.
      apply_loop fuel bmask nodes i.next (apply_node bmask i mode)
]

unfoldable pub apply_modes : Globals → Outcome Globals
apply_modes g =
    let groups = if g.perm_groups == 0 then bit_or g.perm_groups pg_all else g.perm_groups in
    do
      mode ← apply_loop (length g.nodes + 1) (group_mask groups) g.nodes g.perms g.initial_mode
      ok (record g { perm_groups = groups; initial_mode = mode })
