-- ===== src/Chmod/Grammar.antt =====
-- The symbolic modes that chmod/mychmod.c means to read (the regular expression on its line 10,
-- as far as the automaton follows it), with their text and the permissions that they stand for.
use os_tasks.Base.{
  ℕ, ◌+◌, Bool, true, false, ◌∷◌, [], ◌++◌, List, map, bit_or, ◌≡◌, arith, length, ap, refl,
}
use os_tasks.Chmod.State.{
  Modificator, append, erase, pg_all, pg_user, pg_group, pg_others, p_read, p_write, p_exec, Ptr,
  ChangedPerm,
}

pub data Sign : Type 0 where
  plus minus : Sign

pub data Class : Type 0 where
  user group others : Class

-- `[ugoa]`
pub data Who : Type 0 where
  of : Class → Who
  everyone : Who

pub data Letter : Type 0 where
  read write exec : Letter

-- `[ugo]+` or `[rwx]+`
pub data Content : Type 0 where
  copied : Class → List Class → Content
  perms : Letter → List Letter → Content

-- Clauses in order. Only the last may have a sign and nothing behind it.
pub data Clauses : Type 0 where
  bare : Sign → Clauses
  last : Sign → Content → Clauses
  more : Sign → Content → Clauses → Clauses

pub record Symbolic : Type 0 where
  pub who : List Who
  pub clauses : Clauses

-- The text.
abbrev pub sign_char : Sign → ℕ
sign_char plus = b'+'
sign_char minus = b'-'

abbrev pub class_char : Class → ℕ
class_char user = b'u'
class_char group = b'g'
class_char others = b'o'

abbrev pub who_char : Who → ℕ
who_char (of k) = class_char k
who_char everyone = b'a'

abbrev pub letter_char : Letter → ℕ
letter_char read = b'r'
letter_char write = b'w'
letter_char exec = b'x'

abbrev pub content_text : Content → List ℕ
content_text (copied k ks) = class_char k ∷ map class_char ks
content_text (perms p ps) = letter_char p ∷ map letter_char ps

abbrev pub clauses_text : Clauses → List ℕ
clauses_text (bare z) = sign_char z ∷ []
clauses_text (last z t) = sign_char z ∷ content_text t
clauses_text (more z t cl) = sign_char z ∷ (content_text t ++ clauses_text cl)

abbrev pub text : Symbolic → List ℕ
text m = map who_char m.who ++ clauses_text m.clauses

-- What it stands for: a set of flags for who is meant, and one node of the list for each clause.
abbrev pub class_flag : Class → ℕ
class_flag user = pg_user
class_flag group = pg_group
class_flag others = pg_others

abbrev pub who_flag : Who → ℕ
who_flag (of k) = class_flag k
who_flag everyone = pg_all

abbrev pub letter_flag : Letter → ℕ
letter_flag read = p_read
letter_flag write = p_write
letter_flag exec = p_exec

abbrev pub union {ℓ} : {A : Type ℓ} → (A → ℕ) → ℕ → List A → ℕ
union flag acc [] = acc
union flag acc (x ∷ xs) = union flag (bit_or acc (flag x)) xs

abbrev pub sign_modificator : Sign → Modificator
sign_modificator plus = append
sign_modificator minus = erase

-- A node of the list without its link.
pub record Item : Type 0 where
  pub modificator : Modificator
  pub contains_copied_pg : Bool
  pub flags : ℕ

abbrev pub node : Item → Ptr → ChangedPerm
node c q = record {
  modificator = c.modificator;
  contains_copied_pg = c.contains_copied_pg;
  flags = c.flags;
  next = q;
}

abbrev pub fresh_item : Sign → Item
fresh_item z = record { modificator = sign_modificator z; contains_copied_pg = false; flags = 0 }

abbrev pub item : Sign → Content → Item
item z (copied k ks) = record {
  modificator = sign_modificator z;
  contains_copied_pg = true;
  flags = union class_flag 0 (k ∷ ks);
}
item z (perms p ps) = record {
  modificator = sign_modificator z;
  contains_copied_pg = false;
  flags = union letter_flag 0 (p ∷ ps);
}

-- The items of the clauses behind those of `cs`: all but the last, and the last.
abbrev pub items : List Item → Clauses → List Item × Item
items cs (bare z) = (cs, fresh_item z)
items cs (last z t) = (cs, item z t)
items cs (more z t cl) = items (cs ++ item z t ∷ []) cl

-- The items linked into a list of nodes from address k + 1 on; the last node comes as it is.
abbrev pub chain : ℕ → List Item → ChangedPerm → List ChangedPerm
chain k [] n = n ∷ []
chain k (c ∷ cs) n = node c (k + 2) ∷ chain (k + 1) cs n

pub length-chain :
    (k : ℕ) (cs : List Item) (n : ChangedPerm) → length (chain k cs n) ≡ length cs + 1
length-chain k [] n = omega arith
length-chain k (c ∷ cs) n = omega (arith, length-chain (k + 1) cs n)

-- Linking one more node behind the last.
pub chain_snoc :
    (k : ℕ) (cs : List Item) (c : Item) (n : ChangedPerm) (q : Ptr)
    → q ≡ k + length cs + 2
    → chain k cs (node c q) ++ n ∷ [] ≡ chain k (cs ++ c ∷ []) n
chain_snoc k [] c n q e = ground arith
chain_snoc k (d ∷ cs) c n q e =
    ap (λ l. node d (k + 2) ∷ l) (chain_snoc (k + 1) cs c n q (omega arith))

pub union_snoc {ℓ} :
    {A : Type ℓ} (flag : A → ℕ) (acc : ℕ) (xs : List A) (x : A)
    → union flag acc (xs ++ x ∷ []) ≡ bit_or (union flag acc xs) (flag x)
union_snoc flag acc [] x = refl
union_snoc flag acc (y ∷ xs) x = union_snoc flag (bit_or acc (flag y)) xs x
