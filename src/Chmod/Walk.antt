-- ===== src/Chmod/Walk.antt =====
-- chmod/mychmod.c: the loop of `apply_modes` over the list that the parser linked.
use os_tasks.Base.{
  ℕ, zero, suc, ◌+◌, ◌<◌, ◌==◌, false, List, [], ◌∷◌, ◌++◌, length, length-append, append_assoc,
  bit_and, some, none, ◌≡◌, refl, ap, ◌∙◌, arith,
}
use os_tasks.Chmod.State.{Ptr, ChangedPerm, node_at}
use os_tasks.Chmod.Grammar.{Item, node, chain}
use os_tasks.Chmod.Apply.{perm_mask, change, apply_node, apply_loop}

abbrev pub apply_item : ℕ → Item → ℕ → ℕ
apply_item b c mode = change c.modificator (bit_and (perm_mask c.contains_copied_pg c.flags) b) mode

-- Every item in turn; the last comes by itself.
unfoldable pub apply_all : ℕ → List Item → ℕ → ℕ
apply_all b [] mode = mode
apply_all b (d ∷ cs) mode = apply_all b cs (apply_item b d mode)

abbrev pub apply_items : ℕ → List Item → Item → ℕ → ℕ
apply_items b cs c mode = apply_item b c (apply_all b cs mode)

pub apply_all-snoc :
    (b : ℕ) (cs : List Item) (d : Item) (mode : ℕ)
    → apply_all b (cs ++ d ∷ []) mode ≡ apply_item b d (apply_all b cs mode)
unfolding apply_all
apply_all-snoc b [] d mode = refl
apply_all-snoc b (c ∷ cs) d mode = apply_all-snoc b cs d (apply_item b c mode)

pub node_at-append :
    (front : List ChangedPerm) (n : ChangedPerm) (rest : List ChangedPerm)
    → node_at (suc (length front)) (front ++ n ∷ rest) ≡ some n
unfolding node_at
node_at-append [] n rest = refl
node_at-append (m ∷ front) n rest = node_at-append front n rest

pub node_at_beyond : (p : ℕ) (ns : List ChangedPerm) → length ns < p → node_at p ns ≡ none
unfolding node_at
node_at_beyond p [] h = refl
node_at_beyond zero (n ∷ ns) h = refl
node_at_beyond (suc zero) (n ∷ ns) h = absurd (omega arith)
node_at_beyond (suc (suc p)) (n ∷ ns) h = node_at_beyond (suc p) ns (omega arith)

module _ (b : ℕ) where
  apply_loop_next :
      (fuel : ℕ) (front : List ChangedPerm) (n : ChangedPerm) (rest : List ChangedPerm) (mode : ℕ)
      → apply_loop (suc fuel) b (front ++ n ∷ rest) (suc (length front)) mode
        ≡ apply_loop fuel b (front ++ n ∷ rest) n.next (apply_node b n mode)
  unfolding apply_loop
  apply_loop_next fuel front n rest mode =
      let inside : (suc (length front) == 0) ≡ false = ground arith in
      rw (inside, apply_loop, node_at-append front n rest)

  -- The loop reaches what the last node links to, with every item applied.
  pub apply_loop-chain :
      (rounds fuel k : ℕ) (front : List ChangedPerm) (cs : List Item) (c : Item) (q : Ptr)
      (mode : ℕ)
      → rounds ≡ suc (length cs) + fuel
      → k ≡ length front
      → let nodes = front ++ chain k cs (node c q) in
        apply_loop rounds b nodes (suc k) mode ≡ apply_loop fuel b nodes q (apply_items b cs c mode)
  unfolding apply_all apply_node
  apply_loop-chain rounds fuel k front [] c q mode e e' =
      let one : rounds ≡ suc fuel = omega arith in
      rw (one, e') (apply_loop_next fuel front (node c q) [] mode)
  apply_loop-chain rounds fuel k front (d ∷ cs) c q mode e e' =
      let left : rounds ≡ suc (suc (length cs) + fuel) = omega arith in
      let x : ChangedPerm = node d (length front + 2) in
      let rest : List ChangedPerm = chain (length front + 1) cs (node c q) in
      let rounds' : ℕ = suc (length cs) + fuel in
      let mode' : ℕ = apply_item b d mode in
      let ih =
        apply_loop-chain rounds' fuel (length front + 1) (front ++ x ∷ []) cs c q mode' refl
          (omega (arith, length-append front (x ∷ []))) in
      rw (left, e')
        (apply_loop_next rounds' front x rest mode
          ∙ ap (λ p. apply_loop rounds' b (front ++ x ∷ rest) p mode') (omega arith)
          ∙ (rw append_assoc at ih))
