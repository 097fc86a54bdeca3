-- ===== src/Chmod/Rounds.antt =====
-- The automaton of chmod/mychmod.c: what one round does in each state.
use os_tasks.Base.{
  ℕ, zero, suc, ◌+◌, ◌≤◌, ◌==◌, true, false, some, List, [], ◌∷◌, ◌++◌, drop, length, get_elem?,
  ◌≡◌, refl, arith, bit_or, ok, failure, if◌then◌else◌,
}
use os_tasks.Chmod.State.{States, Ptr, Globals, add_changed_perm}
use os_tasks.Chmod.Grammar.{Item, node}
use os_tasks.Chmod.Links.{holding, blank, linked, at_end-holding}
use os_tasks.Chmod.Parser.{
  Config, advance, step_modificator, step_copied_group, step_perm, is_sign, is_class, is_letter,
  copied_flag, perm_flag, signed,
}
use os_tasks.Chmod.Scan.{started, copy, permit}

-- The byte at the start of the rest; at the end of the string it is the closing 0.
abbrev pub first : List ℕ → ℕ
first [] = 0
first (x ∷ r) = x

get_elem?-first :
    (s : List ℕ) (i : ℕ) → i ≤ length s → get_elem? (s ++ 0 ∷ []) i ≡ some (first (drop i s))
get_elem?-first [] zero h = refl
get_elem?-first [] (suc i) h = absurd (omega arith)
get_elem?-first (x ∷ s) zero h = refl
get_elem?-first (x ∷ s) (suc i) h = get_elem?-first s i (omega arith)

pub drop-cons :
    (s : List ℕ) (i : ℕ) (x : ℕ) (r : List ℕ)
    → drop i s ≡ x ∷ r
    → (drop (suc i) s ≡ r) × (suc i ≤ length s)
drop-cons [] zero x r e = cc
drop-cons [] (suc i) x r e = cc
drop-cons (y ∷ s) zero x r e = ground arith
drop-cons (y ∷ s) (suc i) x r e = let (tail, bound) = drop-cons s i x r e in (tail, omega arith)

abbrev pub at : States → ℕ → ℕ → Globals → Config
at st i x g = record { state = st; next_index = i; cur_char = x; globals = g }

module _ (leftover : ℕ → Ptr) (s : List ℕ) where
  pub advance-first :
      (st : States) (i x : ℕ) (g : Globals) {r : List ℕ}
      → drop i s ≡ r
      → i ≤ length s
      → advance leftover s (at st i x g) ≡ ok (at st (i + 1) (first r) g)
  unfolding advance
  advance-first st i x g {r} e h =
      let read : get_elem? (s ++ 0 ∷ []) i ≡ some (first r) = rw (← e) (get_elem?-first s i h) in
      rw read

  -- The round for each state, as a choice on the byte that it reads.
  pub modificator_round :
      (groups : ℕ) (cs : List Item) (g : Globals) (i x : ℕ) {r : List ℕ}
      → add_changed_perm leftover g ≡ ok (holding groups cs (blank (leftover (length cs))))
      → drop i s ≡ r
      → i ≤ length s
      → step_modificator leftover s (at States.set_modificator i x g) ≡ (
          if is_class (first r)
          then ok (
              at States.set_copied_group
                (i + 1)
                (first r)
                (linked leftover groups cs (record (started x) { contains_copied_pg = true })))
          else if is_letter (first r)
          then ok (at States.set_perm (i + 1) (first r) (linked leftover groups cs (started x)))
          else if first r == 0
          then ok (at States.exit (i + 1) (first r) (linked leftover groups cs (started x)))
          else failure)
  unfolding step_modificator
  modificator_round groups cs g i x {r} ready e h =
      let blank_node = blank (leftover (length cs)) in
      let read_node = node (started x) (leftover (length cs)) in
      rw
        (
          ready,
          at_end-holding (λ n. record n { modificator = signed x n.modificator }) groups cs
              blank_node,
          advance-first States.set_modificator i x (linked leftover groups cs (started x)) e h,
          at_end-holding (λ n. record n { contains_copied_pg = true }) groups cs read_node,
          at_end-holding (λ n. record n { contains_copied_pg = false }) groups cs read_node,
        )
        refl

  pub copied_round :
      (groups : ℕ) (cs : List Item) (c : Item) (i x : ℕ) {r : List ℕ}
      → drop i s ≡ r
      → i ≤ length s
      → step_copied_group leftover s (
          at States.set_copied_group i x
            (linked leftover groups cs (record c { contains_copied_pg = true })))
        ≡ (let g = linked leftover groups cs (copy c x) in
            if is_class (first r)
            then ok (at States.set_copied_group (i + 1) (first r) g)
            else if is_sign (first r)
            then ok (at States.set_modificator (i + 1) (first r) g)
            else if first r == 0
            then ok (at States.exit (i + 1) (first r) g)
            else failure)
  unfolding step_copied_group
  copied_round groups cs c i x {r} e h =
      rw
        (
          at_end-holding (λ n. record n { flags = bit_or n.flags (copied_flag x) }) groups cs
              (node (record c { contains_copied_pg = true }) (leftover (length cs))),
          advance-first States.set_copied_group i x (linked leftover groups cs (copy c x)) e h,
        )
        refl

  pub perm_round :
      (groups : ℕ) (cs : List Item) (c : Item) (i x : ℕ) {r : List ℕ}
      → drop i s ≡ r
      → i ≤ length s
      → step_perm leftover s (
          at States.set_perm i x
            (linked leftover groups cs (record c { contains_copied_pg = false })))
        ≡ (let g = linked leftover groups cs (permit c x) in
            if is_letter (first r)
            then ok (at States.set_perm (i + 1) (first r) g)
            else if is_sign (first r)
            then ok (at States.set_modificator (i + 1) (first r) g)
            else if first r == 0
            then ok (at States.exit (i + 1) (first r) g)
            else failure)
  unfolding step_perm
  perm_round groups cs c i x {r} e h =
      rw
        (
          at_end-holding (λ n. record n { flags = bit_or n.flags (perm_flag x) }) groups cs
              (node (record c { contains_copied_pg = false }) (leftover (length cs))),
          advance-first States.set_perm i x (linked leftover groups cs (permit c x)) e h,
        )
        refl

-- A new node has just been added.
abbrev pub Ready : (ℕ → Ptr) → ℕ → List Item → Globals → Type 0
Ready leftover groups cs g =
    add_changed_perm leftover g ≡ ok (holding groups cs (blank (leftover (length cs))))
