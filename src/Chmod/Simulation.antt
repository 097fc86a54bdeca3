-- ===== src/Chmod/Simulation.antt =====
-- The automaton of chmod/mychmod.c follows the recursion of `Scan`, round by round.
use os_tasks.Base.{
  NoNul, ℕ, zero, suc, ◌+◌, ◌-◌, ◌^◌, ◌*◌, ◌≤◌, ◌<◌, ◌==◌, ◌||◌, true, false, Option, none, some,
  List, [], ◌∷◌, ◌++◌, drop, length, Bool-cases, ◌≡◌, refl, ◌∙◌, sym, inl, inr, arith, bit_or,
  Outcome, ok, failure, if◌then◌else◌, ◌>>=◌,
}
use os_tasks.Chmod.State.{States, null, Ptr, Globals, initial_globals, reset_parsed_mode}
use os_tasks.Chmod.Grammar.{Item}
use os_tasks.Chmod.Links.{linked, closing, finish, add_changed_perm-empty, add_changed_perm-holding}
use os_tasks.Chmod.Parser.{
  parse_mode_str, octal_span, automaton, step, step_entry, step_permgroups, is_sign, is_class,
  is_letter, permgroup_flag,
}
use os_tasks.Chmod.Scan.{Items, started, copy, permit, follow, scan, starting, copying, permitting}
use os_tasks.Chmod.Rounds.{
  drop-cons, at, advance-first, modificator_round, copied_round, perm_round, Ready,
}

module _ (leftover : ℕ → Ptr) (s : List ℕ) where
  mutual
    unfolding automaton step follow

    run_started :
        (groups : ℕ) (cs : List Item) (g : Globals) (i x : ℕ) (r : List ℕ) (fuel : ℕ)
        → Ready leftover groups cs g
        → drop i s ≡ r
        → i ≤ length s
        → NoNul r
        → length r + 1 < fuel
        → automaton leftover s fuel (at States.set_modificator i x g)
          ≡ closing leftover groups (follow starting cs (started x) r)
    run_started groups cs g i x [] zero ready e h nz f = absurd (omega arith)
    run_started groups cs g i x [] (suc zero) ready e h nz f = absurd (omega arith)
    run_started groups cs g i x [] (suc (suc fuel)) ready e h nz f =
        rw (modificator_round leftover s groups cs g i x ready e h) refl
    run_started groups cs g i x (y ∷ r) zero ready e h nz f = absurd (omega arith)
    run_started groups cs g i x (y ∷ r) (suc fuel) ready e h nz f =
        let (tail, bound) = drop-cons s i y r e in
        let next : i + 1 ≡ suc i = omega arith in
        let inside : (y == 0) ≡ false = ground (arith, nz.0) in
        rw (modificator_round leftover s groups cs g i x ready e h, next)
          (elim (Bool-cases (is_class y)) [
            | inl class ↦
                rw (class, follow)
                  (run_copied groups cs (started x) (suc i) y r fuel tail bound nz.1 (omega arith))
            | inr other ↦ elim (Bool-cases (is_letter y)) [
              | inl letter ↦
                  rw (other, letter, follow)
                    (run_perm groups cs (started x) (suc i) y r fuel tail bound nz.1 (omega arith))
              | inr neither ↦ rw (other, neither, inside, follow)
            ]
          ])

    run_copied :
        (groups : ℕ) (cs : List Item) (c : Item) (i x : ℕ) (r : List ℕ) (fuel : ℕ)
        → drop i s ≡ r
        → i ≤ length s
        → NoNul r
        → length r + 1 < fuel
        → automaton leftover s fuel (
            at States.set_copied_group i x
              (linked leftover groups cs (record c { contains_copied_pg = true })))
          ≡ closing leftover groups (follow copying cs (copy c x) r)
    run_copied groups cs c i x [] zero e h nz f = absurd (omega arith)
    run_copied groups cs c i x [] (suc zero) e h nz f = absurd (omega arith)
    run_copied groups cs c i x [] (suc (suc fuel)) e h nz f =
        rw (copied_round leftover s groups cs c i x e h) refl
    run_copied groups cs c i x (y ∷ r) zero e h nz f = absurd (omega arith)
    run_copied groups cs c i x (y ∷ r) (suc fuel) e h nz f =
        let (tail, bound) = drop-cons s i y r e in
        let next : i + 1 ≡ suc i = omega arith in
        let inside : (y == 0) ≡ false = ground (arith, nz.0) in
        let ready = add_changed_perm-holding leftover groups cs (copy c x) (leftover (length cs)) in
        rw (copied_round leftover s groups cs c i x e h, next)
          (elim (Bool-cases (is_class y)) [
            | inl class ↦
                rw (class, follow)
                  (run_copied groups cs (copy c x) (suc i) y r fuel tail bound nz.1 (omega arith))
            | inr other ↦ elim (Bool-cases (is_sign y)) [
              | inl sign ↦
                  rw (other, sign, follow)
                    (run_started groups (cs ++ copy c x ∷ []) (linked leftover groups cs (copy c x))
                      (suc i) y r fuel ready tail bound nz.1 (omega arith))
              | inr neither ↦ rw (other, neither, inside, follow)
            ]
          ])

    run_perm :
        (groups : ℕ) (cs : List Item) (c : Item) (i x : ℕ) (r : List ℕ) (fuel : ℕ)
        → drop i s ≡ r
        → i ≤ length s
        → NoNul r
        → length r + 1 < fuel
        → automaton leftover s fuel (
            at States.set_perm i x
              (linked leftover groups cs (record c { contains_copied_pg = false })))
          ≡ closing leftover groups (follow permitting cs (permit c x) r)
    run_perm groups cs c i x [] zero e h nz f = absurd (omega arith)
    run_perm groups cs c i x [] (suc zero) e h nz f = absurd (omega arith)
    run_perm groups cs c i x [] (suc (suc fuel)) e h nz f =
        rw (perm_round leftover s groups cs c i x e h) refl
    run_perm groups cs c i x (y ∷ r) zero e h nz f = absurd (omega arith)
    run_perm groups cs c i x (y ∷ r) (suc fuel) e h nz f =
        let (tail, bound) = drop-cons s i y r e in
        let next : i + 1 ≡ suc i = omega arith in
        let inside : (y == 0) ≡ false = ground (arith, nz.0) in
        let ready =
          add_changed_perm-holding leftover groups cs (permit c x) (leftover (length cs)) in
        rw (perm_round leftover s groups cs c i x e h, next)
          (elim (Bool-cases (is_letter y)) [
            | inl letter ↦
                rw (letter, follow)
                  (run_perm groups cs (permit c x) (suc i) y r fuel tail bound nz.1 (omega arith))
            | inr other ↦ elim (Bool-cases (is_sign y)) [
              | inl sign ↦
                  rw (other, sign, follow)
                    (run_started groups (cs ++ permit c x ∷ [])
                      (linked leftover groups cs (permit c x)) (suc i) y r fuel ready tail bound
                      nz.1 (omega arith))
              | inr neither ↦ rw (other, neither, inside, follow)
            ]
          ])

  -- The globals before the first sign.
  abbrev before : ℕ → Globals
  before groups = record initial_globals { perm_groups = groups }

  finish-closing :
      (groups : ℕ) (o : Option Items)
      → finish leftover (elim o [ none ↦ none | some is ↦ some (groups, is) ])
        ≡ closing leftover groups o
  finish-closing groups none = refl
  finish-closing groups (some is) = refl

  run_entry :
      (groups i x : ℕ) (r : List ℕ) (fuel : ℕ)
      → drop i s ≡ r
      → i ≤ length s
      → NoNul r
      → 2 * length r + 1 < fuel
      → automaton leftover s fuel (at States.entry i x (before groups))
        ≡ finish leftover (scan groups r)
  unfolding automaton step step_entry step_permgroups scan
  run_entry groups i x [] zero e h nz f = absurd (omega arith)
  run_entry groups i x [] (suc fuel) e h nz f =
      rw (advance-first leftover s States.entry i x (before groups) e h) refl
  run_entry groups i x (y ∷ r) zero e h nz f = absurd (omega arith)
  run_entry groups i x (y ∷ r) (suc zero) e h nz f = absurd (omega arith)
  run_entry groups i x (y ∷ r) (suc (suc fuel)) e h nz f =
      let (tail, bound) = drop-cons s i y r e in
      let next : i + 1 ≡ suc i = omega arith in
      rw (advance-first leftover s States.entry i x (before groups) e h, next)
        (elim (Bool-cases (is_sign y)) [
          | inl sign ↦
              rw (sign, scan)
                (run_started groups [] (before groups) (suc i) y r (suc fuel)
                    (add_changed_perm-empty leftover groups) tail bound nz.1 (omega arith)
                  ∙ sym (finish-closing groups (follow starting [] (started y) r)))
          | inr other ↦ elim (Bool-cases (is_class y || (y == b'a'))) [
            | inl who ↦
                rw (other, who, scan)
                  (run_entry (bit_or groups (permgroup_flag y)) (suc i) y r fuel tail bound nz.1
                    (omega arith))
            | inr neither ↦ rw (other, neither, scan)
          ]
        ])

  -- The list is there at the end, so the last test of `parse_mode_str` never fires.
  finish-perms :
      (o : Option (ℕ × Items))
      → ◌≡◌ {A = Outcome (Globals × ℕ)}
          (finish leftover o >>= λ g. if g.perms == null then failure else ok (g, 2 ^ 32 - 1))
          (finish leftover o >>= λ g. ok (g, 2 ^ 32 - 1))
  finish-perms none = refl
  finish-perms (some (groups, (cs, c))) = refl

-- For a string that is not all octal digits, `parse_mode_str` comes to an end and does what `scan`
-- says: it fails, or returns the mask of ones with the groups and the list in `parsed_mode`.
pub parse_mode_str-scan :
    (leftover : ℕ → Ptr) (s : List ℕ)
    → NoNul s
    → (octal_span s == length s) ≡ false
    → parse_mode_str leftover s initial_globals
      ≡ (finish leftover (scan 0 s) >>= λ g. ok (g, 2 ^ 32 - 1))
unfolding parse_mode_str reset_parsed_mode
parse_mode_str-scan leftover s nz symbolic =
    rw
      (
        symbolic,
        run_entry leftover s 0 0 0 s (2 * length s + 3) refl (omega arith) nz (omega arith),
      )
      (finish-perms leftover s (scan 0 s))
