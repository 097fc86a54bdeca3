-- ===== src/Archive/Nodes/Added.antt =====
-- archive/archiver.c, `end_fi_list` (lines 489 to 497) and `make_new_node_in_fi_list` (lines 499 to 507), on
-- the nodes of a list.
use os_tasks.Base.{
  ℕ, zero, suc, ◌≤◌, true, false, ◌==◌, ◌||◌, List, [], ◌∷◌, ◌++◌, length, none, ok, ◌≡◌, ◌≢◌, refl,
  sym, ap, ◌∙◌, arith, Bool-cases, ==_iff, inl, inr,
}
use os_tasks.Archive.Format.{FileInfo}
use os_tasks.Archive.Header.{FiList, init_fi_list, make_new_node_in_fi_list}
use os_tasks.Archive.Nodes.Memory.{
  Ptr, null, Cells, put_cell, ◌>>=◌, load, modify, init_node, end_loop, make_new_node,
}
use os_tasks.Archive.Nodes.Freed.{freed, Same}
use os_tasks.Archive.Nodes.Chain.{is_in, cell, Chain, ends, links}

-- The node `i` at the end of a list, and the list when a new end `fresh` comes behind it.
record Extends (junk : FileInfo) (fresh : Ptr) (rounds : ℕ) (cells : Cells) (p : Ptr) (l : FiList)
    (ps : List Ptr) : Type 0 where
  i : Ptr
  d : FileInfo
  found : end_loop rounds p cells ≡ ok (i, cells)
  at_i : cells i ≡ cell d null true
  inside : is_in i ps ≡ true
  extend :
      (cells' : Cells)
      → cells' i ≡ cell d fresh false
      → cells' fresh ≡ cell junk null true
      → ((a : Ptr) → is_in a ps ≡ true → (a == i) ≡ false → cells' a ≡ cells a)
      → Chain cells' p (make_new_node_in_fi_list junk l) (ps ++ fresh ∷ [])

is_in-append : (a b : Ptr) (ps : List Ptr) → is_in a (ps ++ b ∷ []) ≡ (is_in a ps || a == b)
is_in-append a b [] = ground arith
is_in-append a b (p ∷ ps) = elim (Bool-cases (a == p)) [
  | inl e ↦ rw (e, is_in) refl
  | inr e ↦ rw (e, is_in) (is_in-append a b ps)
]

module _ (junk : FileInfo) (fresh : Ptr) (fresh_ne : fresh ≢ null) where
  Chain-Extends :
      (rounds : ℕ) (cells : Cells) (p : Ptr) (l : FiList) (ps : List Ptr)
      → length ps ≤ rounds
      → is_in fresh ps ≡ false
      → Chain cells p l ps
      → Extends junk fresh rounds cells p l ps
  unfolding end_loop load make_new_node_in_fi_list init_fi_list
  Chain-Extends zero cells p l ps bound out (ends ne at_p) = absurd (omega arith)
  Chain-Extends zero cells p l ps bound out (links ne at_p o rest) = absurd (omega arith)
  Chain-Extends (suc rounds) cells p l ps bound out (ends {d = d} ne at_p) = record {
    i = p;
    d = d;
    found = rw (end_loop, ◌>>=◌, load, at_p) refl;
    at_i = at_p;
    inside = ground arith;
    extend = λ cells' now new same. links ne now (ground (arith, out)) (ends fresh_ne new);
  }
  Chain-Extends (suc rounds) cells p l ps bound out
        (links {q = q} {d = d} {r = r} {ps = qs} ne at_p o rest) =
      let u = Chain-Extends rounds cells q r qs (omega arith) (ground (arith, out)) rest in
      let apart : (p == u.i) ≡ false = elim (Bool-cases (p == u.i)) [
        | inl e ↦ cc (sym o ∙ ap (λ a. is_in a qs) ((==_iff p u.i).0 e) ∙ u.inside)
        | inr e ↦ e
      ] in
      let itself : (p == p) ≡ true = ground arith in
      record {
        i = u.i;
        d = u.d;
        found = rw (end_loop, ◌>>=◌, load, at_p) u.found;
        at_i = u.at_i;
        inside = ground (arith, u.inside);
        extend = λ cells' now new same.
            links ne (same p (rw (itself, is_in) refl) apart ∙ at_p)
              (is_in-append p fresh qs ∙ ground (arith, o, out))
              (u.extend cells' now new (λ a m away. same a (ground (arith, m)) away));
      }

  -- `make_new_node_in_fi_list` refines the function on lists: with memory that is not in use for the new
  -- node, the list from the same address on is what that function gives, with the new node behind the old
  -- ones, and nothing else in the memory has changed. It needs a round for each node.
  pub make_new_node-Chain :
      (rounds : ℕ) (cells : Cells) (p : Ptr) (l : FiList) (ps : List Ptr)
      → length ps ≤ rounds
      → cells fresh ≡ none
      → is_in fresh ps ≡ false
      → Chain cells p l ps
      → (i : Ptr) × (cells' : Cells) × (make_new_node junk rounds fresh p cells ≡ ok (i, cells'))
        × Chain cells' p (make_new_node_in_fi_list junk l) (ps ++ fresh ∷ [])
        × Same (freed (ps ++ fresh ∷ []) cells') (freed ps cells)
  unfolding make_new_node modify init_node
  make_new_node-Chain rounds cells p l ps bound unused out chain =
      let u = Chain-Extends rounds cells p l ps bound out chain in
      let cells' : Cells =
        put_cell u.i (cell u.d fresh false)
          (put_cell u.i (cell u.d fresh true) (put_cell fresh (cell junk null true) cells)) in
      let other : (u.i == fresh) ≡ false = elim (Bool-cases (u.i == fresh)) [
        | inl e ↦ cc (sym out ∙ ap (λ a. is_in a ps) (sym ((==_iff u.i fresh).0 e)) ∙ u.inside)
        | inr e ↦ e
      ] in
      let other' : (fresh == u.i) ≡ false = ground (arith, other) in
      let itself : (a : ℕ) → (a == a) ≡ true = λ a. ground arith in
      (
        u.i,
        cells',
        rw (make_new_node, ◌>>=◌, u.found, init_node, modify, other, u.at_i, itself u.i) refl,
        u.extend cells' (rw (itself u.i) refl) (rw (other', itself fresh) refl)
            (λ a m away. rw (away, unequal_of_in a m) refl),
        (λ a. elim (Bool-cases (is_in a ps)) [
          | inl m ↦ rw (is_in-append a fresh ps, m) refl
          | inr a_ps ↦ elim (Bool-cases (a == fresh)) [
            | inl e ↦
                rw (is_in-append a fresh ps, a_ps, e)
                  (sym (ap cells ((==_iff a fresh).0 e) ∙ unused))
            | inr away ↦
                rw (is_in-append a fresh ps, a_ps, away, unequal_of_out a u.i a_ps u.inside) refl
          ]
        ]),
      )
    where
      unequal_of_in : (a : Ptr) → is_in a ps ≡ true → (a == fresh) ≡ false
      unequal_of_in a m = elim (Bool-cases (a == fresh)) [
        | inl e ↦ cc (sym out ∙ ap (λ b. is_in b ps) (sym ((==_iff a fresh).0 e)) ∙ m)
        | inr e ↦ e
      ]

      unequal_of_out : (a b : Ptr) → is_in a ps ≡ false → is_in b ps ≡ true → (a == b) ≡ false
      unequal_of_out a b a_ps m = elim (Bool-cases (a == b)) [
        | inl e ↦ cc (sym a_ps ∙ ap (λ c. is_in c ps) ((==_iff a b).0 e) ∙ m)
        | inr e ↦ e
      ]
