-- ===== src/Archive/Nodes/Steps.antt =====
-- archive/archiver.c, `remove_node_from_fi_list` (lines 725 to 734), and one round of the loop of
-- `remove_files_from_header` on the nodes of a list.
use os_tasks.Base.{
  Bool, true, false, ◌==◌, List, [], ◌∷◌, none, ok, ◌≡◌, ◌≢◌, refl, sym, subst, ◌∙◌, arith,
  Bool-cases, inl, inr,
}
use os_tasks.Archive.Format.{FileInfo}
use os_tasks.Archive.Header.{FiList, eof_node, node}
use os_tasks.Archive.Nodes.Memory.{
  Ptr, Cells, put_cell, ◌>>=◌, load, modify, free, remove_node_from_fi_list,
}
use os_tasks.Archive.Nodes.Chain.{is_in, cell, Chain, ends, links}

pub unequal_of_out :
    (a p : Ptr) (ps : List Ptr)
    → is_in a (p ∷ ps) ≡ false
    → ((a == p) ≡ false) × (is_in a ps ≡ false)
unequal_of_out a p ps out = elim (Bool-cases (a == p)) [
  | inl e ↦ cc (rw (e, is_in) at out)
  | inr e ↦ (e, (rw (e, is_in) at out))
]

-- The memory when the node `p` behind `i` has been unlinked and freed.
abbrev pub unlinked : Ptr → Ptr → FileInfo → Ptr → Cells → Cells
unlinked i p d q cells = put_cell p none (put_cell i (cell d q false) cells)

pub remove_node-unlinked :
    (h i p q : Ptr) (dh di d : FileInfo) (header : Ptr) (last : Bool) (cells : Cells)
    → cells h ≡ cell dh header false
    → cells i ≡ cell di p false
    → cells p ≡ cell d q last
    → (p == i) ≡ false
    → remove_node_from_fi_list h i cells ≡ ok (true, unlinked i p di q cells)
unfolding remove_node_from_fi_list load modify free
remove_node-unlinked h i p q dh di d header last cells at_h at_i at_p apart =
    rw
      (
        remove_node_from_fi_list, ◌>>=◌, load, at_h, at_i, ◌>>=◌, at_p, modify, at_i, free, apart,
        at_p,
      )
      refl

-- What the loop makes of the list behind `i`, which was at the addresses `ps`: the list `l` at the
-- addresses `ks`, with every other node freed and nothing else touched but `next` of `i`.
pub record Unlinked (cells cells' : Cells) (fictive header' i : Ptr) (di : FileInfo) (l : FiList)
    (ps : List Ptr) : Type 0 where
  pub next' : Ptr
  pub ks : List Ptr
  pub at_i : cells' i ≡ cell di next' false
  pub chain : Chain cells' next' l ks
  pub kept : (a : Ptr) → is_in a ps ≡ false → is_in a ks ≡ false
  pub gone : (a : Ptr) → is_in a ps ≡ true → is_in a ks ≡ false → cells' a ≡ none
  pub spared : (a : Ptr) → is_in a ps ≡ false → (a == i) ≡ false → cells' a ≡ cells a
  pub front_info : FileInfo
  pub front : cells' fictive ≡ cell front_info header' false

module _ (fictive : Ptr) where
  -- The end of the list is reached.
  pub stop_here :
      (cells : Cells) (header i p : Ptr) (df di d : FileInfo)
      → cells i ≡ cell di p false
      → cells fictive ≡ cell df header false
      → p ≢ 0
      → cells p ≡ cell d 0 true
      → Unlinked cells cells fictive header i di (eof_node d) (p ∷ [])
  stop_here cells header i p df di d at_i front ne at_p = record {
    next' = p;
    ks = p ∷ [];
    at_i = at_i;
    chain = ends ne at_p;
    kept = λ a out. out;
    gone = λ a m out. cc (sym m ∙ out);
    spared = λ a out apart. refl;
    front_info = df;
    front = front;
  }

  -- A node `p` that stays: what the loop makes of the list behind it.
  pub keep_node :
      (cells cells' : Cells) (header' i p q : Ptr) (di d : FileInfo) (r : FiList) (ps : List Ptr)
      → cells i ≡ cell di p false
      → is_in i (p ∷ ps) ≡ false
      → p ≢ 0
      → is_in p ps ≡ false
      → Unlinked cells cells' fictive header' p d r ps
      → Unlinked cells cells' fictive header' i di (node d r) (p ∷ ps)
  keep_node cells cells' header' i p q di d r ps at_i out ne apart u =
      let (i_p, i_ps) = unequal_of_out i p ps out in
      record {
        next' = p;
        ks = p ∷ u.ks;
        at_i = u.spared i i_ps i_p ∙ at_i;
        chain = links ne u.at_i (u.kept p apart) u.chain;
        kept = λ a o.
            let (a_p, a_ps) = unequal_of_out a p ps o in
            let later = u.kept a a_ps in rw (a_p, is_in) later;
        gone = λ a m o.
            let (a_p, a_ks) = unequal_of_out a p u.ks o in u.gone a (rw (a_p, is_in) at m) a_ks;
        spared = λ a o away. let (a_p, a_ps) = unequal_of_out a p ps o in u.spared a a_ps a_p;
        front_info = u.front_info;
        front = u.front;
      }

  -- A node `p` that is removed.
  pub drop_node :
      (cells cells' : Cells) (header' i p q : Ptr) (di : FileInfo) (l : FiList) (ps : List Ptr)
      → is_in i (p ∷ ps) ≡ false
      → is_in p ps ≡ false
      → Unlinked (unlinked i p di q cells) cells' fictive header' i di l ps
      → Unlinked cells cells' fictive header' i di l (p ∷ ps)
  drop_node cells cells' header' i p q di l ps out apart u = record {
    next' = u.next';
    ks = u.ks;
    at_i = u.at_i;
    chain = u.chain;
    kept = λ a o. u.kept a (unequal_of_out a p ps o).1;
    gone = λ a m o. elim (Bool-cases (is_in a ps)) [
      | inl later ↦ u.gone a later o
      | inr a_ps ↦ removed a m a_ps
    ];
    spared = λ a o away.
        let (a_p, a_ps) = unequal_of_out a p ps o in u.spared a a_ps away ∙ rw (a_p, away) refl;
    front_info = u.front_info;
    front = u.front;
  }
    where
      p_itself : (p == p) ≡ true
      p_itself = ground arith

      p_i : is_in i (p ∷ ps) ≡ false → (p == i) ≡ false
      p_i o = ground (arith, (unequal_of_out i p ps o).0)

      removed : (a : Ptr) → is_in a (p ∷ ps) ≡ true → is_in a ps ≡ false → cells' a ≡ none
      removed a m a_ps = elim (Bool-cases (a == p)) [
        | inl e ↦
            subst (λ x. cells' x ≡ none) (ground (arith, e))
              (u.spared p apart (p_i out) ∙ rw p_itself refl)
        | inr e ↦ cc (sym a_ps ∙ (rw (e, is_in) at m))
      ]
