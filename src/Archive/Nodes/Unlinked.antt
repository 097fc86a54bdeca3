-- ===== src/Archive/Nodes/Unlinked.antt =====
-- archive/archiver.c, `remove_files_from_header` (lines 736 to 757), on the nodes of a list.
use os_tasks.Base.{
  ℕ, zero, suc, ◌≤◌, Bool, true, false, not, ◌==◌, if◌then◌else◌, List, length, Option, none, some,
  ok, ◌≡◌, refl, sym, ap, subst, ◌∙◌, ==_iff, arith, Bool-cases, inl, inr,
}
use os_tasks.Archive.Format.{FileInfo}
use os_tasks.Archive.Header.{FiList, is_there, remove_files_from_header}
use os_tasks.Archive.Nodes.Memory.{
  null, Ptr, Node, Cells, put_cell, ◌>>=◌, load, unlink_loop, unlink_files,
}
use os_tasks.Archive.Nodes.Freed.{freed, Same}
use os_tasks.Archive.Nodes.Steps.{
  unequal_of_out, unlinked, remove_node-unlinked, Unlinked, stop_here, keep_node, drop_node,
}
use os_tasks.Archive.Nodes.Chain.{is_in, cell, Chain, ends, links, Chain-put_cell}

module _ (fictive : Ptr) (flag : Bool) (names : List (List ℕ)) where
  abbrev picked : FileInfo → Bool
  picked d = if flag then is_there d names else not (is_there d names)

  -- What the node `fictive` holds when the one behind `i` is unlinked.
  front-unlinked :
      (cells : Cells) (i p q header : Ptr) (df di d : FileInfo)
      → cells fictive ≡ cell df header false
      → (fictive == p) ≡ false
      → (header1 : Ptr) × (df1 : FileInfo) × (unlinked i p di q cells fictive
          ≡ cell df1 header1 false)
  front-unlinked cells i p q header df di d front apart = elim (Bool-cases (fictive == i)) [
    | inl same ↦ (q, di, rw (apart, same) refl)
    | inr other ↦ (header, df, rw (apart, other) front)
  ]

  abbrev Runs : ℕ → Cells → (header i : Ptr) → FileInfo → FiList → List Ptr → Type 0
  Runs fuel cells header i di l ps =
      (header' : Ptr) × (cells' : Cells) × (unlink_loop fuel fictive flag names header i cells
        ≡ ok (header', cells'))
      × Unlinked cells cells' fictive header' i di (remove_files_from_header flag names l) ps

  unlink_loop-Chain :
      (fuel : ℕ) (cells : Cells) (header i p : Ptr) (df di : FileInfo) (l : FiList) (ps : List Ptr)
      → length ps ≤ fuel
      → cells i ≡ cell di p false
      → is_in i ps ≡ false
      → cells fictive ≡ cell df header false
      → is_in fictive ps ≡ false
      → Chain cells p l ps
      → Runs fuel cells header i di l ps
  unfolding unlink_loop remove_files_from_header load
  unlink_loop-Chain zero cells header i p df di l ps bound at_i out front f_out (ends ne at_p) =
      absurd (omega arith)
  unlink_loop-Chain zero cells header i p df di l ps bound at_i out front f_out
        (links ne at_p o rest) =
      absurd (omega arith)
  unlink_loop-Chain (suc fuel) cells header i p df di l ps bound at_i out front f_out
        (ends {d = d} ne at_p) =
      (
        header,
        cells,
        rw (unlink_loop, ◌>>=◌, load, at_i, ◌>>=◌, load, at_p) refl,
        stop_here fictive cells header i p df di d at_i front ne at_p,
      )
  unlink_loop-Chain (suc fuel) cells header i p df di l ps bound at_i out front f_out
        (links {q = q} {d = d} {r = r} {ps = qs} ne at_p o rest) =
      let (i_p, i_qs) = unequal_of_out i p qs out in
      let (f_p, f_qs) = unequal_of_out fictive p qs f_out in
      elim (Bool-cases (picked d)) [
        | inl pick ↦
            let p_i : (p == i) ≡ false = ground (arith, i_p) in
            let cells1 : Cells = unlinked i p di q cells in
            let (header1, df1, front1) = front-unlinked cells i p q header df di d front f_p in
            let removed =
              remove_node-unlinked fictive i p q df di d header false cells front at_i at_p p_i in
            let at_i1 : cells1 i ≡ cell di q false = ground (arith, i_p) in
            let chain1 : Chain cells1 q r qs =
              Chain-put_cell p none o (Chain-put_cell i (cell di q false) i_qs rest) in
            let (header', cells', run, u) =
              unlink_loop-Chain fuel cells1 header1 i q df1 di r qs (omega arith) at_i1 i_qs front1
                f_qs chain1 in
            (
              header',
              cells',
              rw (unlink_loop, ◌>>=◌, load, at_i, ◌>>=◌, load, at_p, pick, removed, front1) run,
              rw (pick, remove_files_from_header)
                  (drop_node fictive cells cells' header' i p q di
                    (remove_files_from_header flag names r) qs out o u),
            )
        | inr stay ↦
            let (header', cells', run, u) =
              unlink_loop-Chain fuel cells header p q df d r qs (omega arith) at_p o front f_qs
                rest in
            (
              header',
              cells',
              rw (unlink_loop, ◌>>=◌, load, at_i, ◌>>=◌, load, at_p, stay) run,
              rw (stay, remove_files_from_header)
                  (keep_node fictive cells cells' header' i p q di d
                    (remove_files_from_header flag names r) qs at_i out ne o u),
            )
      ]

-- The list `l` from `header` on, in a memory that is, but for its nodes, the one of `cells` without the
-- nodes `ps`.
pub record Pruned (cells cells' : Cells) (header : Ptr) (l : FiList) (ps : List Ptr) : Type 0 where
  pub ks : List Ptr
  pub chain : Chain cells' header l ks
  pub others : Same (freed ks cells') (freed ps cells)

abbrev next_of : Option Node → Ptr
next_of none = null
next_of (some n) = n.next

Unlinked-Pruned :
    (cells cells1 : Cells) (fictive header' : Ptr) (info : FileInfo) (before : Option Node)
    (l : FiList) (ps : List Ptr)
    → cells fictive ≡ none
    → is_in fictive ps ≡ false
    → Unlinked (put_cell fictive before cells) cells1 fictive header' fictive info l ps
    → Pruned cells (put_cell fictive none cells1) header' l ps
Unlinked-Pruned cells cells1 fictive header' info before l ps unused out u =
    let next : u.next' ≡ header' = ap next_of (sym u.at_i ∙ u.front) in
    record {
      ks = u.ks;
      chain =
          subst (λ p. Chain (put_cell fictive none cells1) p l u.ks) next
            (Chain-put_cell fictive none (u.kept fictive out) u.chain);
      others = λ a. elim (Bool-cases (is_in a ps)) [
        | inl m ↦ elim (Bool-cases (is_in a u.ks)) [
          | inl stays ↦ rw (stays, m) refl
          | inr goes ↦ rw (goes, m) (ground (arith, u.gone a m goes))
        ]
        | inr a_ps ↦ elim (Bool-cases (a == fictive)) [
          | inl e ↦ rw (u.kept a a_ps, a_ps, e) (sym (ap cells ((==_iff a fictive).0 e) ∙ unused))
          | inr away ↦ rw (u.kept a a_ps, a_ps, away) (u.spared a a_ps away ∙ rw away refl)
        ]
      ];
    }

-- `remove_files_from_header` refines the function on lists: the nodes of the list that it returns make up
-- what that function gives, every other node has been freed, and nothing else in the memory has changed.
-- It needs a round for each node, and a place for its local node that is not in use.
pub unlink_files-Chain :
    (rounds : ℕ) (fictive : Ptr) (rest : FileInfo) (flag : Bool) (names : List (List ℕ))
    (cells : Cells) (header : Ptr) (l : FiList) (ps : List Ptr)
    → Chain cells header l ps
    → cells fictive ≡ none
    → is_in fictive ps ≡ false
    → length ps ≤ rounds
    → (header' : Ptr) × (cells' : Cells) × (unlink_files rounds fictive rest flag names header cells
        ≡ ok (header', cells'))
      × Pruned cells cells' header' (remove_files_from_header flag names l) ps
unfolding unlink_files
unlink_files-Chain rounds fictive rest flag names cells header l ps chain unused out bound =
    let cells0 : Cells = put_cell fictive (cell rest header false) cells in
    let itself : (fictive == fictive) ≡ true = ground arith in
    let front : cells0 fictive ≡ cell rest header false = rw itself refl in
    let (header', cells1, run, u) =
      unlink_loop-Chain fictive flag names rounds cells0 header fictive header rest rest l ps bound
        front out front out (Chain-put_cell fictive (cell rest header false) out chain) in
    (
      header',
      put_cell fictive none cells1,
      rw (unlink_files, ◌>>=◌, run) refl,
      Unlinked-Pruned cells cells1 fictive header' rest (cell rest header false)
          (remove_files_from_header flag names l) ps unused out u,
    )
