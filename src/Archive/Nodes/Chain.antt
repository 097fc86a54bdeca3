-- ===== src/Archive/Nodes/Chain.antt =====
-- archive/archiver.c: which list the nodes from an address on make up.
use os_tasks.Base.{
  Bool, true, false, ◌||◌, ◌==◌, List, [], ◌∷◌, Option, some, ◌≡◌, ◌≢◌, refl, sym, ap, ◌∙◌, arith,
  Bool-cases, ==_iff, inl, inr,
}
use mathlib.Core.Bool.{false≢true}
use os_tasks.Archive.Format.{FileInfo}
use os_tasks.Archive.Header.{FiList, eof_node, node}
use os_tasks.Archive.Nodes.Memory.{Ptr, null, Node, Cells, put_cell}

abbrev pub is_in : Ptr → List Ptr → Bool
is_in a [] = false
is_in a (p ∷ ps) = a == p || is_in a ps

abbrev pub cell : FileInfo → Ptr → Bool → Option Node
cell d q last = some (record { info = d; next = q; eof = last })

-- From `p` on the nodes at the distinct addresses make up the list, up to the one whose `eof` is set; its
-- `next` is NULL.
pub data Chain (cells : Cells) : Ptr → FiList → List Ptr → Type 0 where
  ends :
      {p : Ptr} {d : FileInfo}
      → p ≢ null
      → cells p ≡ cell d null true
      → Chain cells p (eof_node d) (p ∷ [])
  links :
      {p q : Ptr} {d : FileInfo} {r : FiList} {ps : List Ptr}
      → p ≢ null
      → cells p ≡ cell d q false
      → is_in p ps ≡ false
      → Chain cells q r ps
      → Chain cells p (node d r) (p ∷ ps)

-- A change elsewhere leaves it.
pub Chain-frame :
    {cells cells' : Cells} {p : Ptr} {l : FiList} {ps : List Ptr}
    → Chain cells p l ps
    → ((a : Ptr) → is_in a ps ≡ true → cells' a ≡ cells a)
    → Chain cells' p l ps
Chain-frame (ends {p} h e) same = ends h (same p (here p) ∙ e)
  where
    here : (p : Ptr) → (p == p || false) ≡ true
    here p = ground arith
Chain-frame (links {p} {ps = ps} h e out rest) same =
    links h (same p (here p ps) ∙ e) out (Chain-frame rest (λ a m. same a (there a p ps m)))
  where
    here : (p : Ptr) (ps : List Ptr) → (p == p || is_in p ps) ≡ true
    here p ps = ground arith

    there : (a p : Ptr) (ps : List Ptr) → is_in a ps ≡ true → (a == p || is_in a ps) ≡ true
    there a p ps m = ground (arith, m)

-- A write to an address outside of it.
pub Chain-put_cell :
    {cells : Cells} {p : Ptr} {l : FiList} {ps : List Ptr} (a : Ptr) (c : Option Node)
    → is_in a ps ≡ false
    → Chain cells p l ps
    → Chain (put_cell a c cells) p l ps
Chain-put_cell {cells} {ps = ps} a c out chain = Chain-frame chain (λ b m. spared b m)
  where
    spared : (b : Ptr) → is_in b ps ≡ true → put_cell a c cells b ≡ cells b
    spared b m = elim (Bool-cases (b == a)) [
      | inl e ↦ absurd (false≢true (sym out ∙ ap (λ x. is_in x ps) (sym ((==_iff b a).0 e)) ∙ m))
      | inr e ↦ rw (e, put_cell) refl
    ]
