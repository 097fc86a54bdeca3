-- ===== src/Chmod/Language.antt =====
-- The recursion of `Scan` reads the text of a symbolic mode, and nothing else.
use os_tasks.Base.{
  ℕ, ◌==◌, ◌||◌, true, some, List, [], ◌∷◌, ◌++◌, map, append_assoc, append-nil, Bool-cases, ◌≡◌,
  refl, sym, ap, ◌∙◌, inl, inr, arith, bit_or,
}
use os_tasks.Chmod.Grammar.{
  Sign, plus, minus, Class, user, group, others, Who, of, everyone, Letter, read, write, exec,
  Content, copied, perms, Clauses, bare, last, more, sign_char, class_char, who_char, letter_char,
  content_text, clauses_text, class_flag, who_flag, letter_flag, union_snoc, Item, fresh_item, item,
  items,
}
use os_tasks.Chmod.Parser.{
  is_sign, is_class, is_letter, copied_flag, perm_flag, permgroup_flag, signed,
}
use os_tasks.Chmod.Scan.{Phase, started, copy, permit, follow, starting, copying, permitting}

-- Each test on a byte passes for the bytes of its kind alone.
pub sign_of : (x : ℕ) → is_sign x ≡ true → (z : Sign) × (x ≡ sign_char z)
sign_of x h = elim (Bool-cases (x == b'+')) [
  | inl e ↦ (plus, ground arith)
  | inr e ↦ (minus, ground arith)
]

pub class_of : (x : ℕ) → is_class x ≡ true → (k : Class) × (x ≡ class_char k)
class_of x h = elim (Bool-cases (x == b'u')) [
  | inl e ↦ (user, ground arith)
  | inr e ↦ elim (Bool-cases (x == b'g')) [
    | inl e' ↦ (group, ground arith)
    | inr e' ↦ (others, ground arith)
  ]
]

pub letter_of : (x : ℕ) → is_letter x ≡ true → (p : Letter) × (x ≡ letter_char p)
letter_of x h = elim (Bool-cases (x == b'r')) [
  | inl e ↦ (read, ground arith)
  | inr e ↦ elim (Bool-cases (x == b'w')) [
    | inl e' ↦ (write, ground arith)
    | inr e' ↦ (exec, ground arith)
  ]
]

pub who_of : (x : ℕ) → (is_class x || (x == b'a')) ≡ true → (w : Who) × (x ≡ who_char w)
who_of x h = elim (Bool-cases (x == b'a')) [
  | inl e ↦ (everyone, ground arith)
  | inr e ↦ let (k, q) = class_of x (ground arith) in (of k, q)
]

pub started-sign : (z : Sign) → started (sign_char z) ≡ fresh_item z
unfolding signed
started-sign plus = refl
started-sign minus = refl

copied_flag-class : (k : Class) → copied_flag (class_char k) ≡ class_flag k
unfolding copied_flag
copied_flag-class user = refl
copied_flag-class group = refl
copied_flag-class others = refl

perm_flag-letter : (p : Letter) → perm_flag (letter_char p) ≡ letter_flag p
unfolding perm_flag
perm_flag-letter read = refl
perm_flag-letter write = refl
perm_flag-letter exec = refl

pub permgroup_flag-who : (w : Who) → permgroup_flag (who_char w) ≡ who_flag w
unfolding permgroup_flag
permgroup_flag-who (of user) = refl
permgroup_flag-who (of group) = refl
permgroup_flag-who (of others) = refl
permgroup_flag-who everyone = refl

-- Reading one byte more of the content of a clause.
pub copy-first : (z : Sign) (k : Class) → copy (fresh_item z) (class_char k) ≡ item z (copied k [])
copy-first z k = rw (copied_flag-class k)

pub permit-first :
    (z : Sign) (p : Letter) → permit (fresh_item z) (letter_char p) ≡ item z (perms p [])
permit-first z p = rw (perm_flag-letter p)

pub copy-item :
    (z : Sign) (k : Class) (ks : List Class) (j : Class)
    → copy (item z (copied k ks)) (class_char j) ≡ item z (copied k (ks ++ j ∷ []))
copy-item z k ks j = rw (copied_flag-class j, union_snoc class_flag (bit_or 0 (class_flag k)) ks j)

pub permit-item :
    (z : Sign) (p : Letter) (ps : List Letter) (q : Letter)
    → permit (item z (perms p ps)) (letter_char q) ≡ item z (perms p (ps ++ q ∷ []))
permit-item z p ps q =
    rw (perm_flag-letter q, union_snoc letter_flag (bit_or 0 (letter_flag p)) ps q)

-- The text of the clauses is read as their items.
abbrev phase_of : Content → Phase
phase_of (copied k ks) = copying
phase_of (perms p ps) = permitting

abbrev pub head_sign : Clauses → Sign
head_sign (bare z) = z
head_sign (last z t) = z
head_sign (more z t cl) = z

abbrev pub tail_text : Clauses → List ℕ
tail_text (bare z) = []
tail_text (last z t) = content_text t
tail_text (more z t cl) = content_text t ++ clauses_text cl

pub clauses_text_lem : (cl : Clauses) → clauses_text cl ≡ sign_char (head_sign cl) ∷ tail_text cl
clauses_text_lem (bare z) = refl
clauses_text_lem (last z t) = refl
clauses_text_lem (more z t cl) = refl

follow-class :
    (cs : List Item) (c : Item) (k : Class) (r : List ℕ)
    → (follow starting cs c (class_char k ∷ r) ≡ follow copying cs (copy c (class_char k)) r)
      × (follow copying cs c (class_char k ∷ r) ≡ follow copying cs (copy c (class_char k)) r)
unfolding follow
follow-class cs c user r = (refl, refl)
follow-class cs c group r = (refl, refl)
follow-class cs c others r = (refl, refl)

follow-letter :
    (cs : List Item) (c : Item) (p : Letter) (r : List ℕ)
    → (follow starting cs c (letter_char p ∷ r) ≡ follow permitting cs (permit c (letter_char p)) r)
      × (follow permitting cs c (letter_char p ∷ r)
          ≡ follow permitting cs (permit c (letter_char p)) r)
unfolding follow
follow-letter cs c read r = (refl, refl)
follow-letter cs c write r = (refl, refl)
follow-letter cs c exec r = (refl, refl)

follow-sign :
    (t : Content) (cs : List Item) (c : Item) (z : Sign) (r : List ℕ)
    → follow (phase_of t) cs c (sign_char z ∷ r) ≡ follow starting (cs ++ c ∷ []) (fresh_item z) r
unfolding follow signed
follow-sign (copied k ks) cs c plus r = refl
follow-sign (copied k ks) cs c minus r = refl
follow-sign (perms p ps) cs c plus r = refl
follow-sign (perms p ps) cs c minus r = refl

module _ (cs : List Item) (z : Sign) (r : List ℕ) where
  follow-classes :
      (k : Class) (ks ls : List Class)
      → follow copying cs (item z (copied k ks)) (map class_char ls ++ r)
        ≡ follow copying cs (item z (copied k (ks ++ ls))) r
  follow-classes k ks [] = rw (append-nil ks)
  follow-classes k ks (j ∷ ls) =
      (follow-class cs (item z (copied k ks)) j (map class_char ls ++ r)).1
      ∙ ap (λ c. follow copying cs c (map class_char ls ++ r)) (copy-item z k ks j)
      ∙ follow-classes k (ks ++ j ∷ []) ls
      ∙ ap (λ l. follow copying cs (item z (copied k l)) r) (append_assoc ks (j ∷ []) ls)

  follow-letters :
      (p : Letter) (ps qs : List Letter)
      → follow permitting cs (item z (perms p ps)) (map letter_char qs ++ r)
        ≡ follow permitting cs (item z (perms p (ps ++ qs))) r
  follow-letters p ps [] = rw (append-nil ps)
  follow-letters p ps (q ∷ qs) =
      (follow-letter cs (item z (perms p ps)) q (map letter_char qs ++ r)).1
      ∙ ap (λ c. follow permitting cs c (map letter_char qs ++ r)) (permit-item z p ps q)
      ∙ follow-letters p (ps ++ q ∷ []) qs
      ∙ ap (λ l. follow permitting cs (item z (perms p l)) r) (append_assoc ps (q ∷ []) qs)

  follow-content :
      (t : Content)
      → follow starting cs (fresh_item z) (content_text t ++ r)
        ≡ follow (phase_of t) cs (item z t) r
  follow-content (copied k ks) =
      (follow-class cs (fresh_item z) k (map class_char ks ++ r)).0
      ∙ ap (λ c. follow copying cs c (map class_char ks ++ r)) (copy-first z k)
      ∙ follow-classes k [] ks
  follow-content (perms p ps) =
      (follow-letter cs (fresh_item z) p (map letter_char ps ++ r)).0
      ∙ ap (λ c. follow permitting cs c (map letter_char ps ++ r)) (permit-first z p)
      ∙ follow-letters p [] ps

follow-end : (t : Content) (cs : List Item) (c : Item) → follow (phase_of t) cs c [] ≡ some (cs, c)
unfolding follow
follow-end (copied k ks) cs c = refl
follow-end (perms p ps) cs c = refl

pub follow-clauses :
    (cs : List Item) (cl : Clauses)
    → follow starting cs (fresh_item (head_sign cl)) (tail_text cl) ≡ some (items cs cl)
follow-clauses cs (bare z) = unfold follow in refl
follow-clauses cs (last z t) =
    ap (λ l. follow starting cs (fresh_item z) l) (sym (append-nil (content_text t)))
    ∙ follow-content cs z [] t
    ∙ follow-end t cs (item z t)
follow-clauses cs (more z t cl) =
    follow-content cs z (clauses_text cl) t
    ∙ ap (λ l. follow (phase_of t) cs (item z t) l) (clauses_text_lem cl)
    ∙ follow-sign t cs (item z t) (head_sign cl) (tail_text cl)
    ∙ follow-clauses (cs ++ item z t ∷ []) cl
