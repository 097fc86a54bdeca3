-- ===== src/Archive/Nodes/Freed.antt =====
-- archive/archiver.c, `free_fi_list` (lines 479 to 487), on the nodes of a list.
use os_tasks.Base.{
  ℕ, zero, suc, ◌<◌, false, ◌==◌, if◌then◌else◌, List, length, none, ok, ◌≡◌, ◌≢◌, refl, ◌∙◌, arith,
}
use os_tasks.Archive.Header.{FiList}
use os_tasks.Archive.Nodes.Memory.{Ptr, null, Cells, put_cell, ◌>>=◌, load, free, free_fi_list}
use os_tasks.Archive.Nodes.Chain.{is_in, Chain, ends, links, Chain-put_cell}

-- The memory without the nodes at these addresses.
abbrev pub freed : List Ptr → Cells → Cells
freed ps cells a = if is_in a ps then none else cells a

not_null : (p : Ptr) → p ≢ null → (p == null) ≡ false
not_null p h = ground (arith, h)

abbrev pub Same : Cells → Cells → Type 0
Same cells cells' = (a : Ptr) → cells a ≡ cells' a

-- `free_fi_list` frees every node of a list and nothing else, each once, and needs a round for each node
-- and one more.
pub free_fi_list-Chain :
    (fuel : ℕ) (cells : Cells) (p : Ptr) (l : FiList) (ps : List Ptr)
    → Chain cells p l ps
    → length ps < fuel
    → (cells' : Cells) × (free_fi_list fuel p cells ≡ ok (tt, cells'))
      × Same cells' (freed ps cells)
unfolding free_fi_list load free
free_fi_list-Chain zero cells p l ps chain h = absurd (omega arith)
free_fi_list-Chain (suc zero) cells p l ps (ends ne e) h = absurd (omega arith)
free_fi_list-Chain (suc (suc fuel)) cells p l ps (ends ne e) h = (
  put_cell p none cells,
  rw (not_null p ne, free_fi_list, ◌>>=◌, load, e, free, e, load) refl,
  λ a. ground arith,
)
free_fi_list-Chain (suc fuel) cells p l ps (links {q = q} {r = r} {ps = qs} ne e out rest) h =
    let (cells', run, same) =
      free_fi_list-Chain fuel (put_cell p none cells) q r qs (Chain-put_cell p none out rest)
        (omega arith) in
    (
      cells',
      rw (not_null p ne, free_fi_list, ◌>>=◌, load, e, free, e) run,
      λ a. same a ∙ ground arith,
    )
