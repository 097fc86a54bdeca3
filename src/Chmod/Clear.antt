-- ===== src/Chmod/Clear.antt =====
-- chmod/mychmod.c, `clear_changed_perm` (lines 74 to 85), which `main` leaves to `atexit`: it frees
-- each node of the list that the parser has linked, and none twice.
use os_tasks.Base.{
  ℕ, zero, suc, ◌+◌, ◌<◌, ◌==◌, Bool, true, false, ◌||◌, List, [], ◌∷◌, ◌++◌, length, length-append,
  append_assoc, Outcome, ok, fault, out_of_fuel, ◌>>=◌, none, some, ◌≡◌, refl, sym, ap, ◌∙◌, arith,
}
use os_tasks.Chmod.State.{Ptr, null, ChangedPerm, Globals, initial_globals, node_at}
use os_tasks.Chmod.Grammar.{Item, Symbolic, items, node, chain, length-chain, text}
use os_tasks.Chmod.Parser.{parse_mode_str}
use os_tasks.Chmod.Parse.{parsed, parse_mode_str-text}
use os_tasks.Chmod.Walk.{node_at-append}
use os_tasks.Chmod.Correct.{last_node}

-- Has the node been freed?
abbrev pub is_freed : Ptr → List Ptr → Bool
is_freed p [] = false
is_freed p (q ∷ freed) = p == q || is_freed p freed

-- `while (l != NULL)`, with the nodes that have been freed, the last first. Reading or freeing a freed
-- node is a fault.
unfoldable pub clear_loop : ℕ → List ChangedPerm → Ptr → List Ptr → Outcome (List Ptr)
clear_loop zero nodes l freed = out_of_fuel
clear_loop (suc fuel) nodes l freed = elim (l == null) [
  | true ↦ ok freed
  | false ↦ elim (is_freed l freed) [
    | true ↦ fault
    | false ↦ elim (node_at l nodes) [
      | none ↦ fault
      | some node ↦ clear_loop fuel nodes node.next (l ∷ freed)
    ]
  ]
]

-- Each round frees a node, so the loop gets a round for each node and one more.
unfoldable pub clear_changed_perm : Globals → Outcome (Globals × List Ptr)
clear_changed_perm g = do
  freed ← clear_loop (length g.nodes + 1) g.nodes g.perms []
  ok (record g { perms = null; end_perms = null }, freed)

-- The addresses of the first nodes, the last first.
abbrev pub addresses : ℕ → List Ptr
addresses zero = []
addresses (suc n) = suc n ∷ addresses n

not_yet_freed : (p k : ℕ) → k < p → is_freed p (addresses k) ≡ false
not_yet_freed p zero h = refl
not_yet_freed p (suc k) h =
    let apart : (p == suc k) ≡ false = ground arith in
    rw (apart, is_freed) (not_yet_freed p k (omega arith))

clear_loop_next :
    (fuel : ℕ) (front : List ChangedPerm) (n : ChangedPerm) (rest : List ChangedPerm)
    → clear_loop (suc fuel) (front ++ n ∷ rest) (suc (length front)) (addresses (length front))
      ≡ clear_loop fuel (front ++ n ∷ rest) n.next (addresses (suc (length front)))
unfolding clear_loop
clear_loop_next fuel front n rest =
    let inside : (suc (length front) == 0) ≡ false = ground arith in
    rw (
      inside,
      clear_loop,
      not_yet_freed (suc (length front)) (length front) (omega arith),
      node_at-append front n rest,
    )

-- The loop reaches what the last node links to.
clear_loop-chain :
    (rounds fuel k : ℕ) (front : List ChangedPerm) (cs : List Item) (c : Item) (q : Ptr)
    → rounds ≡ suc (length cs) + fuel
    → k ≡ length front
    → let nodes = front ++ chain k cs (node c q) in
      clear_loop rounds nodes (suc k) (addresses k)
      ≡ clear_loop fuel nodes q (addresses (suc (k + length cs)))
clear_loop-chain rounds fuel k front [] c q e e' =
    let one : rounds ≡ suc fuel = omega arith in
    let same : k + 0 ≡ k = omega arith in
    rw (one, same, e') (clear_loop_next fuel front (node c q) [])
clear_loop-chain rounds fuel k front (d ∷ cs) c q e e' =
    let left : rounds ≡ suc (suc (length cs) + fuel) = omega arith in
    let x : ChangedPerm = node d (length front + 2) in
    let rest : List ChangedPerm = chain (length front + 1) cs (node c q) in
    let rounds' : ℕ = suc (length cs) + fuel in
    let ih =
      clear_loop-chain rounds' fuel (length front + 1) (front ++ x ∷ []) cs c q refl
        (omega (arith, length-append front (x ∷ []))) in
    let next : suc (length front) ≡ length front + 1 = omega arith in
    let size : length front + 1 + length cs ≡ length front + suc (length cs) = omega arith in
    rw (left, e')
      (clear_loop_next rounds' front x rest
        ∙ ap (λ p. clear_loop rounds' (front ++ x ∷ rest) p (addresses (suc (length front))))
            (omega arith)
        ∙ ap (λ j. clear_loop rounds' (front ++ x ∷ rest) (suc (length front + 1)) (addresses j))
            next
        ∙ (rw append_assoc at ih)
        ∙ ap (λ j. clear_loop fuel (front ++ x ∷ rest) q (addresses (suc j))) size)

-- Behind the parsing of a symbolic mode, with memory that holds NULL at `next` of the last node,
-- `clear_changed_perm` frees every node once, from the first to the last, and leaves no pointer to one.
pub clear_changed_perm-parse_mode_str :
    (leftover : ℕ → Ptr) (m : Symbolic)
    → leftover (last_node m) ≡ null
    → parse_mode_str leftover (text m) initial_globals >>= (λ (g, mask). clear_changed_perm g)
      ≡ ok (
        record (parsed leftover m) { perms = null; end_perms = null },
        addresses (length (parsed leftover m).nodes),
      )
unfolding clear_changed_perm clear_loop
clear_changed_perm-parse_mode_str leftover m settled =
    let g = parsed leftover m in
    let nodes = g.nodes in
    let (cs, c) = items [] m.clauses in
    let size : length nodes ≡ suc (length cs) =
      length-chain 0 cs (node c (leftover (length cs))) ∙ omega arith in
    let no_more : 0 + length cs ≡ length cs = omega arith in
    let freed : clear_loop (length nodes + 1) nodes 1 [] ≡ ok (addresses (length nodes)) =
      clear_loop-chain (length nodes + 1) 1 0 [] cs c (leftover (length cs)) (omega (arith, size))
        refl
      ∙ ap (λ k. clear_loop 1 nodes (leftover (length cs)) (addresses (suc k))) no_more
      ∙ ap (λ q. clear_loop 1 nodes q (addresses (suc (length cs)))) settled
      ∙ ap (λ k. ok (addresses k)) (sym size) in
    ap (λ o. o >>= λ (g', mask). clear_changed_perm g') (parse_mode_str-text leftover m)
    ∙ ap (λ o. o >>= λ l. ok (record g { perms = null; end_perms = null }, l)) freed
