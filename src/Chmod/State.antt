-- ===== src/Chmod/State.antt =====
-- chmod/mychmod.c, lines 9 to 97: the enumerations, the two structs, the globals, and the functions
-- that build the linked list of changed permissions. Pointers are explicit: the node that the k-th
-- call of `malloc` returned stands at address k + 1, and 0 is NULL.
use os_tasks.Base.{
  ℕ, zero, suc, ◌+◌, Bool, false, Option, none, some, List, [], ◌∷◌, ◌++◌, ◌==◌, if◌then◌else◌,
  length, Outcome, ok, or_fault, ◌>>=◌,
}
use mathlib.Core.Option

pub data States : Type 0 where
  entry set_permgroups set_modificator set_perm set_copied_group exit : States

abbrev pub pg_all : ℕ
pg_all = 1

abbrev pub pg_user : ℕ
pg_user = 2

abbrev pub pg_group : ℕ
pg_group = 4

abbrev pub pg_others : ℕ
pg_others = 8

pub data Modificator : Type 0 where
  undef append erase : Modificator

abbrev pub p_read : ℕ
p_read = 1

abbrev pub p_write : ℕ
p_write = 2

abbrev pub p_exec : ℕ
p_exec = 4

abbrev pub Ptr : Type 0
Ptr = ℕ

abbrev pub null : Ptr
null = 0

-- `struct changed_perm`
pub record ChangedPerm : Type 0 where
  pub modificator : Modificator
  pub contains_copied_pg : Bool
  pub flags : ℕ
  pub next : Ptr

-- `parsed_mode`, the nodes that `malloc` has returned so far, and the two other globals.
pub record Globals : Type 0 where
  pub perm_groups : ℕ
  pub perms : Ptr
  pub end_perms : Ptr
  pub nodes : List ChangedPerm
  pub initial_mode : ℕ
  pub is_number : Bool

abbrev pub initial_globals : Globals
initial_globals = record {
  perm_groups = 0;
  perms = null;
  end_perms = null;
  nodes = [];
  initial_mode = 0;
  is_number = false;
}

-- Reading and writing through a pointer; `none` if it points at no node.
unfoldable pub node_at : Ptr → List ChangedPerm → Option ChangedPerm
node_at p [] = none
node_at zero (n ∷ ns) = none
node_at (suc zero) (n ∷ ns) = some n
node_at (suc (suc p)) (n ∷ ns) = node_at (suc p) ns

unfoldable pub update_at :
    (ChangedPerm → ChangedPerm) → Ptr → List ChangedPerm → Option (List ChangedPerm)
update_at f p [] = none
update_at f zero (n ∷ ns) = none
update_at f (suc zero) (n ∷ ns) = some (f n ∷ ns)
update_at f (suc (suc p)) (n ∷ ns) = Option.map (λ ms. n ∷ ms) (update_at f (suc p) ns)

-- An assignment to fields of `*parsed_mode.end_perms`.
unfoldable pub at_end : (ChangedPerm → ChangedPerm) → Globals → Outcome Globals
at_end f g = do ns ← or_fault (update_at f g.end_perms g.nodes); ok (record g { nodes = ns })

-- It leaves `end_perms` as it was.
unfoldable pub reset_parsed_mode : Globals → Globals
reset_parsed_mode g = record g { perm_groups = 0; perms = null }

-- `leftover k` is what the memory of the k-th node holds at `next` when `malloc` returns it: the
-- function sets the three other fields and not this one.
unfoldable pub add_changed_perm : (leftover : ℕ → Ptr) → Globals → Outcome Globals
add_changed_perm leftover g =
    let new : ChangedPerm = record {
      modificator = undef;
      contains_copied_pg = false;
      flags = 0;
      next = leftover (length g.nodes);
    } in
    let address = length g.nodes + 1 in
    let linked =
      if g.perms == null
      then ok (record g { perms = address })
      else at_end (λ n. record n { next = address }) g in
    do g' ← linked; ok (record g' { nodes = g'.nodes ++ new ∷ []; end_perms = address })
