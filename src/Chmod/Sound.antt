-- ===== src/Chmod/Sound.antt =====
-- What the recursion of `Scan` accepts is the text of a symbolic mode.
use os_tasks.Base.{
  ℕ, ◌==◌, ◌||◌, some, List, [], ◌∷◌, ◌++◌, map, append_assoc, append-nil, map-append, Bool-cases,
  Option-cases, ◌≡◌, refl, ap, subst, ◌∙◌, inl, inr, arith, bit_or, ◌⊎◌,
}
use os_tasks.Chmod.Grammar.{
  Sign, plus, minus, Class, Who, of, everyone, Letter, Content, copied, perms, Clauses, bare, last,
  more, Symbolic, sign_char, class_char, who_char, letter_char, content_text, clauses_text, text,
  union, who_flag, Item, fresh_item, item, items,
}
use os_tasks.Chmod.Parser.{is_sign, is_class, is_letter, permgroup_flag}
use os_tasks.Chmod.Scan.{
  Phase, Items, started, copy, permit, follow, scan, starting, copying, permitting,
}
use os_tasks.Chmod.Language.{
  sign_of, class_of, letter_of, who_of, started-sign, permgroup_flag-who, copy-first, permit-first,
  copy-item, permit-item, follow-clauses, clauses_text_lem, head_sign, tail_text,
}

-- What the first byte of an accepted rest is, in each phase.
module _ (cs : List Item) (c : Item) (x : ℕ) (r : List ℕ) (is : Items) where
  accepted_started :
      follow starting cs c (x ∷ r) ≡ some is
      → ((k : Class) × (x ≡ class_char k) × (follow copying cs (copy c (class_char k)) r ≡ some is))
        ⊎ ((p : Letter) × (x ≡ letter_char p)
            × (follow permitting cs (permit c (letter_char p)) r ≡ some is))
  unfolding follow
  accepted_started h = elim (Bool-cases (is_class x)) [
    | inl e ↦ let (k, q) = class_of x e in inl (k, q, ground arith)
    | inr e ↦ elim (Bool-cases (is_letter x)) [
      | inl e' ↦ let (p, q) = letter_of x e' in inr (p, q, ground arith)
      | inr e' ↦ absurd (ground arith)
    ]
  ]

  accepted_copied :
      follow copying cs c (x ∷ r) ≡ some is
      → ((k : Class) × (x ≡ class_char k) × (follow copying cs (copy c (class_char k)) r ≡ some is))
        ⊎ ((z : Sign) × (x ≡ sign_char z)
            × (follow starting (cs ++ c ∷ []) (started (sign_char z)) r ≡ some is))
  unfolding follow
  accepted_copied h = elim (Bool-cases (is_class x)) [
    | inl e ↦ let (k, q) = class_of x e in inl (k, q, ground arith)
    | inr e ↦ elim (Bool-cases (is_sign x)) [
      | inl e' ↦ let (z, q) = sign_of x e' in inr (z, q, ground arith)
      | inr e' ↦ absurd (ground arith)
    ]
  ]

  accepted_perm :
      follow permitting cs c (x ∷ r) ≡ some is
      → ((p : Letter) × (x ≡ letter_char p)
          × (follow permitting cs (permit c (letter_char p)) r ≡ some is))
        ⊎ ((z : Sign) × (x ≡ sign_char z)
            × (follow starting (cs ++ c ∷ []) (started (sign_char z)) r ≡ some is))
  unfolding follow
  accepted_perm h = elim (Bool-cases (is_letter x)) [
    | inl e ↦ let (p, q) = letter_of x e in inl (p, q, ground arith)
    | inr e ↦ elim (Bool-cases (is_sign x)) [
      | inl e' ↦ let (z, q) = sign_of x e' in inr (z, q, ground arith)
      | inr e' ↦ absurd (ground arith)
    ]
  ]

-- What the first byte of an accepted string is.
accepted_scan :
    (groups : ℕ) (x : ℕ) (r : List ℕ) (res : ℕ × Items)
    → scan groups (x ∷ r) ≡ some res
    → ((z : Sign) × (is : Items) × (x ≡ sign_char z)
        × (follow starting [] (fresh_item z) r ≡ some is)
        × (res ≡ (groups, is)))
      ⊎ ((w : Who) × (x ≡ who_char w) × (scan (bit_or groups (who_flag w)) r ≡ some res))
unfolding scan
accepted_scan groups x r res h = elim (Bool-cases (is_sign x)) [
  | inl e ↦
      let (z, q) = sign_of x e in
      elim (Option-cases (follow starting [] (started x) r)) [
        | inl rejected ↦ absurd (ground arith)
        | inr (is, e') ↦ inl (z, is, q, ground (arith, started-sign z), ground arith)
      ]
  | inr e ↦ elim (Bool-cases (is_class x || (x == b'a'))) [
    | inl e' ↦ let (w, q) = who_of x e' in inr (w, q, ground (arith, permgroup_flag-who w))
    | inr e' ↦ absurd (ground arith)
  ]
]

-- `r`, behind the sign `z`, is the text of clauses that stand for `is`.
abbrev Reading : List Item → Sign → List ℕ → Items → Type 0
Reading cs z r is = (cl : Clauses) × (sign_char z ∷ r ≡ clauses_text cl) × (is ≡ items cs cl)

-- A clause with its content read, and the clauses behind it.
Reading-more :
    (cs : List Item) (z : Sign) (t : Content) (y : Sign) (r : List ℕ) (is : Items)
    → Reading (cs ++ item z t ∷ []) y r is
    → Reading cs z (content_text t ++ sign_char y ∷ r) is
Reading-more cs z t y r is (cl, text, same) = (more z t cl, rw text, same)

map_snoc :
    {A : Type 0} (f : A → ℕ) (xs : List A) (x : A) (r : List ℕ)
    → map f (xs ++ x ∷ []) ++ r ≡ map f xs ++ f x ∷ r
map_snoc f xs x r = simp (map-append, append_assoc)

follow-nil : (p : Phase) (cs : List Item) (c : Item) → follow p cs c [] ≡ some (cs, c)
unfolding follow
follow-nil starting cs c = refl
follow-nil copying cs c = refl
follow-nil permitting cs c = refl

mutual
  read_started :
      (cs : List Item) (z : Sign) (r : List ℕ) (is : Items)
      → follow starting cs (fresh_item z) r ≡ some is
      → Reading cs z r is
  read_started cs z [] is h = (bare z, refl, cc (follow-nil starting cs (fresh_item z)))
  read_started cs z (x ∷ r) is h = elim (accepted_started cs (fresh_item z) x r is h) [
    | inl (k, q, h') ↦ rw q (read_copied cs z k [] r is (rw copy-first at h'))
    | inr (p, q, h') ↦ rw q (read_perm cs z p [] r is (rw permit-first at h'))
  ]

  read_copied :
      (cs : List Item) (z : Sign) (k : Class) (ks : List Class) (r : List ℕ) (is : Items)
      → follow copying cs (item z (copied k ks)) r ≡ some is
      → Reading cs z (content_text (copied k ks) ++ r) is
  read_copied cs z k ks [] is h =
      (last z (copied k ks), rw append-nil, cc (follow-nil copying cs (item z (copied k ks))))
  read_copied cs z k ks (x ∷ r) is h = elim (accepted_copied cs (item z (copied k ks)) x r is h) [
    | inl (j, q, h') ↦ rw q (
        subst (λ l. Reading cs z (class_char k ∷ l) is) (map_snoc class_char ks j r)
          (read_copied cs z k (ks ++ j ∷ []) r is (rw copy-item at h')))
    | inr (y, q, h') ↦ rw q (
        Reading-more cs z (copied k ks) y r is
          (read_started (cs ++ item z (copied k ks) ∷ []) y r is (rw started-sign at h')))
  ]

  read_perm :
      (cs : List Item) (z : Sign) (p : Letter) (ps : List Letter) (r : List ℕ) (is : Items)
      → follow permitting cs (item z (perms p ps)) r ≡ some is
      → Reading cs z (content_text (perms p ps) ++ r) is
  read_perm cs z p ps [] is h =
      (last z (perms p ps), rw append-nil, cc (follow-nil permitting cs (item z (perms p ps))))
  read_perm cs z p ps (x ∷ r) is h = elim (accepted_perm cs (item z (perms p ps)) x r is h) [
    | inl (q', q, h') ↦ rw q (
        subst (λ l. Reading cs z (letter_char p ∷ l) is) (map_snoc letter_char ps q' r)
          (read_perm cs z p (ps ++ q' ∷ []) r is (rw permit-item at h')))
    | inr (y, q, h') ↦ rw q (
        Reading-more cs z (perms p ps) y r is
          (read_started (cs ++ item z (perms p ps) ∷ []) y r is (rw started-sign at h')))
  ]

-- What a symbolic mode stands for: the groups, and the items.
abbrev pub meaning : ℕ → Symbolic → ℕ × Items
meaning groups m = (union who_flag groups m.who, items [] m.clauses)

abbrev symbolic : List Who → Clauses → Symbolic
symbolic ws cl = record { who = ws; clauses = cl }

scan-sign :
    (groups : ℕ) (z : Sign) (r : List ℕ) {is : Items}
    → follow starting [] (fresh_item z) r ≡ some is
    → scan groups (sign_char z ∷ r) ≡ some (groups, is)
unfolding scan
scan-sign groups plus r h = ground (arith, started-sign plus)
scan-sign groups minus r h = ground (arith, started-sign minus)

scan-who :
    (groups : ℕ) (w : Who) (r : List ℕ)
    → scan groups (who_char w ∷ r) ≡ scan (bit_or groups (who_flag w)) r
unfolding scan permgroup_flag
scan-who groups (of Class.user) r = refl
scan-who groups (of Class.group) r = refl
scan-who groups (of Class.others) r = refl
scan-who groups everyone r = refl

-- The text of a symbolic mode is read as what it stands for.
pub scan-text :
    (groups : ℕ) (ws : List Who) (cl : Clauses)
    → scan groups (text (symbolic ws cl)) ≡ some (meaning groups (symbolic ws cl))
scan-text groups [] cl =
    ap (scan groups) (clauses_text_lem cl)
    ∙ scan-sign groups (head_sign cl) (tail_text cl) (follow-clauses [] cl)
scan-text groups (w ∷ ws) cl =
    scan-who groups w (text (symbolic ws cl)) ∙ scan-text (bit_or groups (who_flag w)) ws cl

-- Any accepted string is the text of a symbolic mode.
pub scanned :
    (groups : ℕ) (s : List ℕ) (res : ℕ × Items)
    → scan groups s ≡ some res
    → (m : Symbolic) × (s ≡ text m) × (res ≡ meaning groups m)
scanned groups [] res h = unfold scan in absurd (ground arith)
scanned groups (x ∷ r) res h = elim (accepted_scan groups x r res h) [
  | inl (z, is, q, h', same) ↦
      let (cl, e, e') = read_started [] z r is h' in (symbolic [] cl, rw q e, rw same (rw e'))
  | inr (w, q, h') ↦
      let (m, e, same) = scanned (bit_or groups (who_flag w)) r res h' in
      (symbolic (w ∷ m.who) m.clauses, rw q (rw e), same)
]
