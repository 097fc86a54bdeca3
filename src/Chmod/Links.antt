-- ===== src/Chmod/Links.antt =====
-- chmod/mychmod.c: what `add_changed_perm` and the assignments through `end_perms` make of a list
-- that is linked in the order of its making.
use os_tasks.Base.{
  ℕ, suc, ◌+◌, false, Option, none, some, Outcome, failure, List, [], ◌∷◌, ◌++◌, length,
  length-append, ◌≡◌, refl, arith, ok,
}
use os_tasks.Chmod.State.{
  undef, Ptr, ChangedPerm, Globals, initial_globals, update_at, at_end, add_changed_perm,
}
use os_tasks.Chmod.Scan.{Items}
use os_tasks.Chmod.Grammar.{Item, node, chain, length-chain, chain_snoc}

-- The globals that hold the groups and the list, with the last node as it is.
abbrev pub holding : ℕ → List Item → ChangedPerm → Globals
holding groups cs n = record initial_globals {
  perm_groups = groups;
  perms = 1;
  end_perms = suc (length cs);
  nodes = chain 0 cs n;
}

-- A node as `add_changed_perm` makes it.
abbrev pub blank : Ptr → ChangedPerm
blank q = record { modificator = undef; contains_copied_pg = false; flags = 0; next = q }

-- The list with the item that was read last as its last node.
abbrev pub linked : (leftover : ℕ → Ptr) → ℕ → List Item → Item → Globals
linked leftover groups cs c = holding groups cs (node c (leftover (length cs)))

abbrev pub closing : (leftover : ℕ → Ptr) → ℕ → Option Items → Outcome Globals
closing leftover groups none = failure
closing leftover groups (some (cs, c)) = ok (linked leftover groups cs c)

abbrev pub finish : (leftover : ℕ → Ptr) → Option (ℕ × Items) → Outcome Globals
finish leftover none = failure
finish leftover (some (groups, is)) = closing leftover groups (some is)

pub update_at-chain :
    (f : ChangedPerm → ChangedPerm) (k : ℕ) (cs : List Item) (n : ChangedPerm)
    → update_at f (suc (length cs)) (chain k cs n) ≡ some (chain k cs (f n))
unfolding update_at
update_at-chain f k [] n = refl
update_at-chain f k (c ∷ cs) n = rw (update_at-chain f (k + 1) cs n)

pub at_end-holding :
    (f : ChangedPerm → ChangedPerm) (groups : ℕ) (cs : List Item) (n : ChangedPerm)
    → at_end f (holding groups cs n) ≡ ok (holding groups cs (f n))
unfolding at_end
at_end-holding f groups cs n = rw (update_at-chain f 0 cs n)

pub add_changed_perm-empty :
    (leftover : ℕ → Ptr) (groups : ℕ)
    → add_changed_perm leftover (record initial_globals { perm_groups = groups })
      ≡ ok (holding groups [] (blank (leftover 0)))
unfolding add_changed_perm
add_changed_perm-empty leftover groups = refl

pub add_changed_perm-holding :
    (leftover : ℕ → Ptr) (groups : ℕ) (cs : List Item) (c : Item) (q : Ptr)
    → add_changed_perm leftover (holding groups cs (node c q))
      ≡ ok (holding groups (cs ++ c ∷ []) (blank (leftover (length (cs ++ c ∷ [])))))
unfolding add_changed_perm
add_changed_perm-holding leftover groups cs c q =
    let size : length (chain 0 cs (node c q)) ≡ length (cs ++ c ∷ []) =
      omega (arith, length-chain 0 cs (node c q), length-append cs (c ∷ [])) in
    let address = length (cs ++ c ∷ []) + 1 in
    let n = blank (leftover (length (cs ++ c ∷ []))) in
    rw (size, at_end-holding (λ n. record n { next = address }) groups cs (node c q))
      (ground (arith, chain_snoc 0 cs c n address (omega (arith, length-append cs (c ∷ [])))))
