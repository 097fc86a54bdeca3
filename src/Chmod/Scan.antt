-- ===== src/Chmod/Scan.antt =====
-- The automaton of chmod/mychmod.c as a recursion on the rest of the string.
use os_tasks.Base.{ℕ, true, false, Option, none, some, List, [], ◌∷◌, ◌++◌, ◌==◌, ◌||◌, bit_or}
use os_tasks.Chmod.State.{undef}
use os_tasks.Chmod.Grammar.{Item}
use os_tasks.Chmod.Parser.{
  is_sign, is_class, is_letter, permgroup_flag, copied_flag, perm_flag, signed,
}

-- What the byte before the rest was: a sign, one of `ugo`, or one of `rwx`.
pub data Phase : Type 0 where
  starting copying permitting : Phase

abbrev pub started : ℕ → Item
started x = record { modificator = signed x undef; contains_copied_pg = false; flags = 0 }

abbrev pub copy : Item → ℕ → Item
copy c x = record c { contains_copied_pg = true; flags = bit_or c.flags (copied_flag x) }

abbrev pub permit : Item → ℕ → Item
permit c x = record c { contains_copied_pg = false; flags = bit_or c.flags (perm_flag x) }

abbrev pub Items : Type 0
Items = List Item × Item

unfoldable pub follow : Phase → List Item → Item → List ℕ → Option Items
follow p cs c [] = some (cs, c)
follow starting cs c (x ∷ r) = elim (is_class x) [
  | true ↦ follow copying cs (copy c x) r
  | false ↦ elim (is_letter x) [ true ↦ follow permitting cs (permit c x) r | false ↦ none ]
]
follow copying cs c (x ∷ r) = elim (is_class x) [
  | true ↦ follow copying cs (copy c x) r
  | false ↦ elim (is_sign x) [ true ↦ follow starting (cs ++ c ∷ []) (started x) r | false ↦ none ]
]
follow permitting cs c (x ∷ r) = elim (is_letter x) [
  | true ↦ follow permitting cs (permit c x) r
  | false ↦ elim (is_sign x) [ true ↦ follow starting (cs ++ c ∷ []) (started x) r | false ↦ none ]
]

unfoldable pub scan : ℕ → List ℕ → Option (ℕ × Items)
scan groups [] = none
scan groups (x ∷ r) = elim (is_sign x) [
  | true ↦ elim (follow starting [] (started x) r) [ none ↦ none | some is ↦ some (groups, is) ]
  | false ↦ elim (is_class x || (x == b'a')) [
    | true ↦ scan (bit_or groups (permgroup_flag x)) r
    | false ↦ none
  ]
]
