-- ===== src/Ls/Names.antt =====
-- ls/main.c, `_dirent_cmp` (lines 437 to 441): the order of the names, and what it determines.
use os_tasks.Base.{ℕ, true, false, ◌==◌, ltb, List, [], ◌∷◌, ◌≡◌, ◌≢◌, refl, sym, ap₂, ◌∙◌, arith}
use mathlib.Core.Logic.Or
use mathlib.Core.List.{Mem, Perm, Pairwise, mem-cons, mem-cons_self}
use mathlib.Core.List.Pairwise
use mathlib.Core.List.Perm

-- The sign of a comparison.
pub data Sign : Type 0 where
  below equal above : Sign

-- `strcmp` of strings without their 0, which is less than every other byte.
unfoldable pub strcmp : List ℕ → List ℕ → Sign
strcmp [] [] = equal
strcmp [] (y ∷ t) = below
strcmp (x ∷ s) [] = above
strcmp (x ∷ s) (y ∷ t) = elim (x == y) [
  | true ↦ strcmp s t
  | false ↦ elim (ltb x y) [ true ↦ below | false ↦ above ]
]

-- The entries are compared by their names.
unfoldable pub dirent_cmp : List ℕ → List ℕ → Sign
dirent_cmp f s = strcmp f s

abbrev pub ComesFirst : List ℕ → List ℕ → Type 0
ComesFirst a b = dirent_cmp a b ≢ above

abbrev pub IsSorted : List (List ℕ) → Type 0
IsSorted = Pairwise ComesFirst

-- What `qsort` makes of a list: the same entries, in order.
pub record IsSortOf (sorted names : List (List ℕ)) : Type 0 where
  pub same : Perm sorted names
  pub in_order : IsSorted sorted

strcmp_refl : (s : List ℕ) → strcmp s s ≡ equal
unfolding strcmp
strcmp_refl [] = refl
strcmp_refl (x ∷ s) = let e : (x == x) ≡ true = ground arith in rw (e, strcmp) (strcmp_refl s)

strcmp_antisymm : (s t : List ℕ) → strcmp s t ≢ above → strcmp t s ≢ above → s ≡ t
unfolding strcmp
strcmp_antisymm [] [] h k = refl
strcmp_antisymm [] (y ∷ t) h k = absurd (k refl)
strcmp_antisymm (x ∷ s) [] h k = absurd (h refl)
strcmp_antisymm (x ∷ s) (y ∷ t) h k = ground (arith, strcmp_antisymm s t)

ComesFirst-refl : (s : List ℕ) → ComesFirst s s
unfolding dirent_cmp
ComesFirst-refl s e = cc (sym (strcmp_refl s) ∙ e)

ComesFirst-antisymm : (s t : List ℕ) → ComesFirst s t → ComesFirst t s → s ≡ t
unfolding dirent_cmp
ComesFirst-antisymm s t h k = strcmp_antisymm s t h k

-- Every name of the list comes behind `a`, or is it.
LeadsAll : List ℕ → List (List ℕ) → Type 0
LeadsAll a l = (b : List ℕ) → Mem b l → ComesFirst a b

head-LeadsAll : {a : List ℕ} {l : List (List ℕ)} → IsSorted (a ∷ l) → LeadsAll a (a ∷ l)
unfolding LeadsAll
head-LeadsAll {a} (Pairwise.cons h rest) b m =
    let is_prop : IsProp (ComesFirst a b) = hlevel in
    Or.elim is_prop (mem-cons.0 m) (λ e. rw e (ComesFirst-refl a)) (h b)

-- There is one sorted list of given names.
pub IsSorted-unique : (l r : List (List ℕ)) → IsSorted l → IsSorted r → Perm l r → l ≡ r
unfolding LeadsAll
IsSorted-unique [] r sl sr p = Perm.nil-eq p
IsSorted-unique (a ∷ l) [] sl sr p = Perm.eq-nil p
IsSorted-unique (a ∷ l) (b ∷ r) sl sr p =
    let first = head-LeadsAll sl b ((Perm.mem_iff p).1 mem-cons_self) in
    let second = head-LeadsAll sr a ((Perm.mem_iff p).0 mem-cons_self) in
    let heads = ComesFirst-antisymm a b first second in
    ap₂ ◌∷◌ heads (
      IsSorted-unique l r (Pairwise.of_cons sl) (Pairwise.of_cons sr)
        (Perm.cons_inv (Perm.trans p (Perm.cons' (sym heads) Perm.rfl))))
