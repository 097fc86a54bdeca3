-- ===== src/Archive/Nodes/Memory.antt =====
-- archive/archiver.c: the nodes of `fi_list` in memory (lines 67 to 73) and the functions on them. An
-- address is a number, 0 is NULL; malloc is taken to succeed.
use os_tasks.Base.{
  ℕ, zero, suc, ◌||◌, Bool, true, false, not, ◌==◌, if◌then◌else◌, List, Option, none, some,
  Outcome, ok, failure, fault, out_of_fuel,
}
use os_tasks.Archive.Format.{FileInfo}
use os_tasks.Archive.Header.{is_there}

abbrev pub Ptr : Type 0
Ptr = ℕ

abbrev pub null : Ptr
null = 0

-- `struct fi_list`
pub record Node : Type 0 where
  pub info : FileInfo
  pub next : Ptr
  pub eof : Bool

abbrev pub Cells : Type 0
Cells = Ptr → Option Node

abbrev pub put_cell : Ptr → Option Node → Cells → Cells
put_cell p c cells a = if a == p then c else cells a

-- A piece of code that reads and writes the memory.
abbrev pub Code : Type 0 → Type 0
Code A = Cells → Outcome (A × Cells)

abbrev pub pure : {A : Type 0} → A → Code A
pure a cells = ok (a, cells)

infixl 5 ◌>>=◌
abbrev pub ◌>>=◌ : {A B : Type 0} → Code A → (A → Code B) → Code B
◌>>=◌ c k cells = elim (c cells) [
  | ok (a, cells') ↦ k a cells'
  | failure ↦ failure
  | fault ↦ fault
  | out_of_fuel ↦ out_of_fuel
]

-- The read of `*p`; a fault where no node is.
unfoldable pub load : Ptr → Code Node
load p cells = elim (cells p) [ none ↦ fault | some n ↦ ok (n, cells) ]

-- A write to fields of `*p`.
unfoldable pub modify : (Node → Node) → Ptr → Code (Unit {0})
modify f p cells = elim (cells p) [ none ↦ fault | some n ↦ ok (tt, put_cell p (some (f n)) cells) ]

unfoldable pub free : Ptr → Code (Unit {0})
free p cells = elim (cells p) [ none ↦ fault | some n ↦ ok (tt, put_cell p none cells) ]

module _ (junk : FileInfo) where
  -- `fresh` is what `malloc` returns.
  unfoldable pub init_node : (fresh : Ptr) → Code Ptr
  init_node fresh cells =
      ok (fresh, put_cell fresh (some (record { info = junk; next = null; eof = true })) cells)

-- `for (; !i->eof; i = i->next);`
unfoldable pub end_loop : ℕ → Ptr → Code Ptr
end_loop zero i = λ cells. out_of_fuel
end_loop (suc fuel) i = do n ← load i; elim n.eof [ true ↦ pure i | false ↦ end_loop fuel n.next ]

-- `rounds` bounds the loops; a round for each node is enough.
unfoldable pub end_fi_list : ℕ → Ptr → Code Ptr
end_fi_list rounds header = if header == null then pure header else end_loop rounds header

unfoldable pub make_new_node : FileInfo → ℕ → (fresh : Ptr) → Ptr → Code Ptr
make_new_node junk rounds fresh h = do
  i ← end_loop rounds h
  new ← init_node junk fresh
  _ ← modify (λ n. record n { next = new }) i
  _ ← modify (λ n. record n { eof = false }) i
  pure i

unfoldable pub free_fi_list : ℕ → Ptr → Code (Unit {0})
free_fi_list zero i = λ cells. out_of_fuel
free_fi_list (suc fuel) i = elim (i == null) [
  | true ↦ pure tt
  | false ↦ do n ← load i; _ ← free i; free_fi_list fuel n.next
]

-- Has the node behind `to` been removed? The code returns 0 then, and -1 otherwise.
unfoldable pub remove_node_from_fi_list : (h to : Ptr) → Code Bool
remove_node_from_fi_list h to = do
  first ← load h
  n ← load to
  if first.eof || n.eof then pure false else do
    to_del ← load n.next
    _ ← modify (λ m. record m { next = to_del.next }) to
    _ ← free n.next
    pure true

-- The loop of `remove_files_from_header`; `fictive` is the address of the local node in front of the
-- list. It returns what is then in `*header`.
unfoldable pub unlink_loop :
    ℕ → (fictive : Ptr) → Bool → List (List ℕ) → (header i : Ptr) → Code Ptr
unlink_loop zero fictive flag names header i = λ cells. out_of_fuel
unlink_loop (suc fuel) fictive flag names header i = do
  n ← load i
  m ← load n.next
  elim m.eof [
    | true ↦ pure header
    | false ↦ elim (if flag then is_there m.info names else not (is_there m.info names)) [
      | true ↦ do
        _ ← remove_node_from_fi_list fictive i
        f ← load fictive
        unlink_loop fuel fictive flag names f.next i
      | false ↦ unlink_loop fuel fictive flag names header n.next
    ]
  ]

-- The local node is gone at the end.
unfoldable pub unlink_files : ℕ → (fictive : Ptr) → FileInfo → Bool → List (List ℕ) → Ptr → Code Ptr
unlink_files rounds fictive rest flag names header = do
  _ ← (λ cells.
      ok (tt, put_cell fictive (some (record { info = rest; next = header; eof = false })) cells))
  header' ← unlink_loop rounds fictive flag names header fictive
  (λ cells. ok (header', put_cell fictive none cells))
