-- ===== src/Chmod/Correct.antt =====
-- chmod/mychmod.c as a whole: what `apply_modes` and `main` do to the modes of the files.
use os_tasks.Base.{
  ℕ, zero, suc, ◌+◌, ◌<◌, ◌==◌, true, false, List, [], ◌∷◌, length, bit, none, some, Option-cases,
  ◌≡◌, refl, inl, inr, arith, ok, fault, ◌>>=◌,
}
use os_tasks.Chmod.State.{Ptr, null, Globals, initial_globals}
use os_tasks.Chmod.Grammar.{Symbolic, text, union, who_flag, items, node, chain, length-chain}
use os_tasks.Chmod.Apply.{group_mask, apply_loop, apply_modes}
use os_tasks.Chmod.Walk.{apply_items, apply_loop-chain, node_at_beyond}
use os_tasks.Chmod.Grant.{defaulted, bit-apply_items}
use os_tasks.Chmod.Covers.{run_symbolic}
use os_tasks.Chmod.Parse.{parsed, all_ones, parse_mode_str-text}
use os_tasks.Chmod.Program.{
  CString, Exit, exit_success, exit_failure, FileModes, new_mode, files_loop, main,
}

-- The number of the node that `malloc` returned last for a mode.
abbrev pub last_node : Symbolic → ℕ
last_node m = length (items [] m.clauses).0

-- The mode that `apply_modes` makes of another.
abbrev mode_under : ℕ → Symbolic → ℕ → ℕ
mode_under groups m mode =
    let (cs, c) = items [] m.clauses in apply_items (group_mask groups) cs c mode

abbrev symbolic_mode : Symbolic → ℕ → ℕ
symbolic_mode m = mode_under (defaulted (union who_flag 0 m.who)) m

abbrev loaded : (ℕ → Ptr) → Symbolic → ℕ → ℕ → Globals
loaded leftover m groups mode = record (parsed leftover m) {
  perm_groups = groups;
  initial_mode = mode;
}

module _ (leftover : ℕ → Ptr) (m : Symbolic) where
  apply_modes-loaded :
      (groups mode : ℕ)
      → apply_modes (loaded leftover m groups mode) ≡ (
          let (cs, c) = items [] m.clauses in
          let nodes = chain 0 cs (node c (leftover (length cs))) in
          let done = apply_items (group_mask (defaulted groups)) cs c mode in
          apply_loop 1 (group_mask (defaulted groups)) nodes (leftover (length cs)) done
          >>= λ mode'. ok (loaded leftover m (defaulted groups) mode'))
  unfolding apply_modes
  apply_modes-loaded groups mode =
      let (cs, c) = items [] m.clauses in
      let n = node c (leftover (length cs)) in
      rw (
        apply_loop-chain (group_mask (defaulted groups)) (length (chain 0 cs n) + 1) 1 0 [] cs c
          (leftover (length cs)) mode (omega (arith, length-chain 0 cs n)) refl)

  apply_modes_settled :
      (groups all mode : ℕ)
      → leftover (last_node m) ≡ null
      → defaulted groups ≡ all
      → apply_modes (loaded leftover m groups mode)
        ≡ ok (loaded leftover m all (mode_under all m mode))
  unfolding apply_loop
  apply_modes_settled groups all mode e e' = rw (apply_modes-loaded groups mode, e, e')

  -- `add_changed_perm` leaves the `next` of a new node as `malloc` returned it. If the memory of the
  -- last node held an address where there is no node, then `apply_modes` goes through it.
  apply_modes_dangling :
      (mode : ℕ)
      → last_node m + 1 < leftover (last_node m)
      → apply_modes (record (parsed leftover m) { initial_mode = mode }) ≡ fault
  unfolding apply_loop
  apply_modes_dangling mode h =
      let (cs, c) = items [] m.clauses in
      let q = leftover (length cs) in
      let n = node c q in
      let inside : (q == null) ≡ false = ground arith in
      let beyond = node_at_beyond q (chain 0 cs n) (omega (arith, length-chain 0 cs n)) in
      rw (apply_modes-loaded (union who_flag 0 m.who) mode) (rw (inside, apply_loop, beyond))

defaulted_twice : (g : ℕ) → defaulted (defaulted g) ≡ defaulted g
defaulted_twice zero = refl
defaulted_twice (suc g) = let named : (suc g == 0) ≡ false = ground arith in rw (named, named)

module _ {F : Type 0} (os : FileModes F) where
  -- Each file in turn gets the mode that `f` makes of its own. The first error ends it.
  unfoldable pub visit : (ℕ → ℕ) → List CString → F → Exit × F
  visit f [] fs = (exit_success, fs)
  visit f (path ∷ paths) fs = elim (os.stat fs path) [
    | none ↦ (exit_failure, fs)
    | some mode ↦ elim (os.chmod fs path (f mode)) [
      | none ↦ (exit_failure, fs)
      | some fs' ↦ visit f paths fs'
    ]
  ]

  module _ (leftover : ℕ → Ptr) where
    -- A symbolic mode, and a first file that can be read: if the memory of the last node held an address
    -- where there is no node, the run reads through it. `add_changed_perm` leaves `next` as it was.
    pub main_dangling :
        (m : Symbolic)
        → last_node m + 1 < leftover (last_node m)
        → (path : CString) (paths : List CString) (fs : F) (mode : ℕ) → os.stat fs path ≡ some mode
        → main os leftover (text m ∷ path ∷ paths) fs ≡ fault
    unfolding main files_loop new_mode
    main_dangling m wild path paths fs mode found =
        rw (parse_mode_str-text leftover m, main)
          (rw (found, files_loop) (rw (apply_modes_dangling leftover m mode wild) refl))

    files_loop-visit :
        (m : Symbolic)
        → leftover (last_node m) ≡ null
        → (all : ℕ) → defaulted all ≡ all
        → (mask groups before : ℕ) → defaulted groups ≡ all
        → (paths : List CString) (fs : F)
        → files_loop os leftover mask paths (loaded leftover m groups before) fs
          ≡ ok (visit (mode_under all m) paths fs)
    unfolding files_loop visit new_mode
    files_loop-visit m settled all fixed mask groups before same [] fs = refl
    files_loop-visit m settled all fixed mask groups before same (path ∷ paths) fs =
        elim (Option-cases (os.stat fs path)) [
          | inl gone ↦ rw (gone, files_loop, visit)
          | inr (mode, found) ↦
              rw
                (
                  found,
                  files_loop,
                  visit,
                  apply_modes_settled leftover m groups all mode settled same,
                )
                (elim (Option-cases (os.chmod fs path (mode_under all m mode))) [
                  | inl refused ↦ rw refused
                  | inr (fs', done) ↦ rw done (
                      files_loop-visit m settled all fixed mask all (mode_under all m mode) fixed
                        paths fs')
                ])
        ]

    pub files_loop-visit_number :
        (mask : ℕ) (before : ℕ) (paths : List CString) (fs : F)
        → files_loop os leftover mask paths
            (record initial_globals { is_number = true; initial_mode = before })
            fs
          ≡ ok (visit (λ _. mask) paths fs)
    unfolding files_loop visit new_mode
    files_loop-visit_number mask before [] fs = refl
    files_loop-visit_number mask before (path ∷ paths) fs = elim (Option-cases (os.stat fs path)) [
      | inl gone ↦ rw (gone, files_loop, visit)
      | inr (mode, found) ↦
          rw (found, files_loop, visit)
            (elim (Option-cases (os.chmod fs path mask)) [
              | inl refused ↦ rw refused
              | inr (fs', done) ↦ rw done (files_loop-visit_number mask mask paths fs')
            ])
    ]

    -- `mychmod MODE FILE...` with a symbolic mode: each file in turn gets a mode whose every bit is
    -- what the clauses of the mode make of that bit of its old mode; the first file that cannot be
    -- read or changed ends the run. It needs memory whose `next` is NULL behind the last node.
    pub main-symbolic :
        (m : Symbolic)
        → leftover (last_node m) ≡ null
        → (path : CString) (paths : List CString) (fs : F)
        → (f : ℕ → ℕ) × (main os leftover (text m ∷ path ∷ paths) fs
            ≡ ok (visit f (path ∷ paths) fs))
          × ((mode k : ℕ) → k < 32 → bit (f mode) k ≡ run_symbolic k m (bit mode k))
    unfolding main
    main-symbolic m settled path paths fs = (
      symbolic_mode m,
      (rw (parse_mode_str-text leftover m, main)
          (files_loop-visit m settled (defaulted (union who_flag 0 m.who))
            (defaulted_twice (union who_flag 0 m.who)) all_ones (union who_flag 0 m.who) 0 refl
            (path ∷ paths) fs)),
      λ mode k lt. bit-apply_items m.who m.clauses mode k lt,
    )
