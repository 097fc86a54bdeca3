-- ===== src/Archive/Nodes/Tests.antt =====
-- The functions on the nodes of a list of archive/archiver.c, on a list of two files.
use os_tasks.Base.{ℕ, true, false, List, [], ◌∷◌, ◌++◌, replicate, none, ok, ◌≡◌, refl, arith}
use os_tasks.Archive.Format.{FileInfo}
use os_tasks.Archive.Header.{
  FiList, eof_node, node, make_new_node_in_fi_list, remove_files_from_header,
}
use os_tasks.Archive.Nodes.Memory.{Ptr, Cells, put_cell, free_fi_list, make_new_node, unlink_files}
use os_tasks.Archive.Nodes.Chain.{cell, Chain, ends, links}
use os_tasks.Archive.Nodes.Freed.{freed, Same, free_fi_list-Chain}
use os_tasks.Archive.Nodes.Unlinked.{Pruned, unlink_files-Chain}
use os_tasks.Archive.Nodes.Added.{make_new_node-Chain}

abbrev info_of : ℕ → FileInfo
info_of c = record { filename = c ∷ replicate 255 0; filesize = 1; mask = 420; offset = 0 }

-- "a" at 1, "b" at 2, and the end at 3.
abbrev memory : Cells
memory =
    put_cell 1 (cell (info_of 97) 2 false)
      (put_cell 2 (cell (info_of 98) 3 false) (put_cell 3 (cell (info_of 0) 0 true) (λ a. none)))

abbrev two_files : FiList
two_files = node (info_of 97) (node (info_of 98) (eof_node (info_of 0)))

abbrev places : List Ptr
places = 1 ∷ 2 ∷ 3 ∷ []

two-Chain : Chain memory 1 two_files places
two-Chain =
    links (λ e. omega arith) refl refl
      (links (λ e. omega arith) refl refl (ends (λ e. omega arith) refl))

free_fi_list-Chain_example :
    (cells' : Cells) × (free_fi_list 4 1 memory ≡ ok (tt, cells'))
    × Same cells' (freed places memory)
free_fi_list-Chain_example = free_fi_list-Chain 4 memory 1 two_files places two-Chain (omega arith)

unlink_files-Chain_example :
    (header' : Ptr) × (cells' : Cells) × (unlink_files 3 9
        (info_of 0)
        true
        ((97 ∷ []) ∷ [])
        1
        memory
      ≡ ok (header', cells'))
    × Pruned memory cells' header' (remove_files_from_header true ((97 ∷ []) ∷ []) two_files) places
unlink_files-Chain_example =
    unlink_files-Chain 3 9 (info_of 0) true ((97 ∷ []) ∷ []) memory 1 two_files places two-Chain
      refl refl (omega arith)

make_new_node-Chain_example :
    (i : Ptr) × (cells' : Cells) × (make_new_node (info_of 0) 3 4 1 memory ≡ ok (i, cells'))
    × Chain cells' 1 (make_new_node_in_fi_list (info_of 0) two_files) (places ++ 4 ∷ [])
    × Same (freed (places ++ 4 ∷ []) cells') (freed places memory)
make_new_node-Chain_example =
    make_new_node-Chain (info_of 0) 4 (λ e. omega arith) 3 memory 1 two_files places (omega arith)
      refl refl two-Chain
