-- ===== src/Chmod/Grant.antt =====
-- chmod/mychmod.c, `apply_modes` on the list of a symbolic mode, bit by bit.
use os_tasks.Base.{
  ℕ, ◌^◌, ◌<◌, Bool, true, false, ◌&&◌, ◌||◌, ◌==◌, if◌then◌else◌, bit, bit_and, bit_or, bit-bit_or,
  bit-bit_and, bit-complement, bit-le-one, bit_and-le, complement, List, [], ◌∷◌, ◌++◌, ◌≡◌, refl,
  ap, ◌∙◌, arith,
}
use os_tasks.Chmod.State.{pg_all}
use os_tasks.Chmod.Grammar.{
  Sign, plus, minus, Class, user, group, others, Who, of, everyone, Letter, read, write, exec,
  Content, copied, perms, Clauses, bare, last, more, class_flag, who_flag, letter_flag, union,
  sign_modificator, item, items, Item, fresh_item,
}
use os_tasks.Chmod.Apply.{group_mask, perm_mask, change}
use os_tasks.Chmod.Walk.{apply_item, apply_all, apply_items, apply_all-snoc}
use os_tasks.Chmod.Covers.{
  class_covers, letter_covers, who_covers, any, meant, content_covers, put, run_clauses,
}
use os_tasks.Chmod.Effect.{
  as_bit, has_class, has_letter, has_who, bit-group_mask, bit-perm_mask, group_mask-lt, unites,
}

class_flag-lt : (c : Class) → class_flag c < 16
class_flag-lt user = omega arith
class_flag-lt group = omega arith
class_flag-lt others = omega arith

who_flag-lt : (w : Who) → who_flag w < 16
who_flag-lt (of c) = class_flag-lt c
who_flag-lt everyone = omega arith

letter_flag-lt : (p : Letter) → letter_flag p < 16
letter_flag-lt read = omega arith
letter_flag-lt write = omega arith
letter_flag-lt exec = omega arith

-- A single flag covers what its name does.
has_class-flag : (k : ℕ) (c : Class) → has_class (class_flag c) k ≡ class_covers k c
has_class-flag k user = ground arith
has_class-flag k group = ground arith
has_class-flag k others = refl

has_letter-flag : (k : ℕ) (p : Letter) → has_letter (letter_flag p) k ≡ letter_covers k p
has_letter-flag k read = ground arith
has_letter-flag k write = ground arith
has_letter-flag k exec = refl

has_who-flag : (k : ℕ) (w : Who) → has_who (who_flag w) k ≡ who_covers k w
has_who-flag k (of user) = ground arith
has_who-flag k (of group) = ground arith
has_who-flag k (of others) = ground arith
has_who-flag k everyone = refl

-- A set of flags, from the flags that were put in.
module _ {A : Type 0} (flag : A → ℕ) (small : (a : A) → flag a < 16) where
  pub union-lt : (acc : ℕ) (xs : List A) → acc < 16 → union flag acc xs < 16
  union-lt acc [] h = h
  union-lt acc (x ∷ xs) h =
      union-lt (bit_or acc (flag x)) xs (unites acc (flag x) h (small x)).small

  has-union :
      (has : ℕ → Bool) (covers : A → Bool)
      → ((acc : ℕ) (a : A) → acc < 16 → has (bit_or acc (flag a)) ≡ (has acc || covers a))
      → (acc : ℕ) (xs : List A) → acc < 16
      → has (union flag acc xs) ≡ (has acc || any covers xs)
  has-union has covers one acc [] h = ground arith
  has-union has covers one acc (x ∷ xs) h = ground (
    arith,
    one acc x h,
    has-union has covers one (bit_or acc (flag x)) xs (unites acc (flag x) h (small x)).small,
  )

module _ (k : ℕ) (lt : k < 32) where
  class-union : (cs : List Class) → has_class (union class_flag 0 cs) k ≡ any (class_covers k) cs
  class-union cs =
      has-union class_flag class_flag-lt (λ f. has_class f k) (class_covers k)
        (λ acc c h.
          (unites acc (class_flag c) h (class_flag-lt c)).class k lt
          ∙ ap (λ b. has_class acc k || b) (has_class-flag k c))
        0 cs (omega arith)

  letter-union :
      (ps : List Letter) → has_letter (union letter_flag 0 ps) k ≡ any (letter_covers k) ps
  letter-union ps =
      has-union letter_flag letter_flag-lt (λ f. has_letter f k) (letter_covers k)
        (λ acc p h.
          (unites acc (letter_flag p) h (letter_flag-lt p)).letter k lt
          ∙ ap (λ b. has_letter acc k || b) (has_letter-flag k p))
        0 ps (omega arith)

  who-union : (ws : List Who) → has_who (union who_flag 0 ws) k ≡ any (who_covers k) ws
  who-union ws =
      has-union who_flag who_flag-lt (λ f. has_who f k) (who_covers k)
        (λ acc w h.
          (unites acc (who_flag w) h (who_flag-lt w)).who k lt
          ∙ ap (λ b. has_who acc k || b) (has_who-flag k w))
        0 ws (omega arith)

  -- The mask of a clause has the bits that its content covers.
  bit-perm_mask-item :
      (z : Sign) (t : Content)
      → let c = item z t in
        bit (perm_mask c.contains_copied_pg c.flags) k ≡ as_bit (content_covers k t)
  bit-perm_mask-item z (copied c cs) =
      (bit-perm_mask (union class_flag 0 (c ∷ cs)) k
        (union-lt class_flag class_flag-lt 0 (c ∷ cs) (omega arith)) lt).0
      ∙ ap as_bit (class-union (c ∷ cs))
  bit-perm_mask-item z (perms p ps) =
      (bit-perm_mask (union letter_flag 0 (p ∷ ps)) k
        (union-lt letter_flag letter_flag-lt 0 (p ∷ ps) (omega arith)) lt).1
      ∙ ap as_bit (letter-union (p ∷ ps))

  module _ (mask : ℕ) (who : Bool) (fits : mask < 2 ^ 32) (same : bit mask k ≡ as_bit who) where
    bit-change :
        (z : Sign) (content : Bool) (pmask mode : ℕ)
        → bit pmask k ≡ as_bit content
        → bit (change (sign_modificator z) (bit_and pmask mask) mode) k
          ≡ put z (who && content) (bit mode k)
    unfolding change
    bit-change plus content pmask mode e =
        ground (
          arith,
          bit-bit_or mode (bit_and pmask mask) k,
          bit-bit_and pmask mask k,
          bit-le-one mode k,
        )
    bit-change minus content pmask mode e =
        let cut : bit_and pmask mask < 2 ^ 32 = omega (arith, bit_and-le pmask mask) in
        ground (
          arith,
          bit-bit_and mode (complement 32 (bit_and pmask mask)) k,
          bit-complement 32 (bit_and pmask mask) k cut lt,
          bit-bit_and pmask mask k,
          bit-le-one mode k,
        )

    bit-apply_item :
        (z : Sign) (t : Content) (mode : ℕ)
        → bit (apply_item mask (item z t) mode) k ≡ put z (who && content_covers k t) (bit mode k)
    bit-apply_item z (copied c cs) mode =
        bit-change z (any (class_covers k) (c ∷ cs)) (perm_mask true (union class_flag 0 (c ∷ cs)))
          mode (bit-perm_mask-item z (copied c cs))
    bit-apply_item z (perms p ps) mode =
        bit-change z (any (letter_covers k) (p ∷ ps))
          (perm_mask false (union letter_flag 0 (p ∷ ps))) mode (bit-perm_mask-item z (perms p ps))

    -- A clause with a sign alone changes no bit.
    bit-apply_item_bare :
        (z : Sign) (mode : ℕ) → bit (apply_item mask (fresh_item z) mode) k ≡ bit mode k
    bit-apply_item_bare z mode =
        bit-change z false (perm_mask false 0) mode (bit-perm_mask 0 k (omega arith) lt).1
        ∙ nothing z who (bit mode k)
      where
        nothing : (z : Sign) (who : Bool) (v : ℕ) → put z (who && false) v ≡ v
        nothing plus true v = refl
        nothing plus false v = refl
        nothing minus true v = refl
        nothing minus false v = refl

    -- The clauses in turn do to the bit what they say of it.
    bit-apply_clauses :
        (cs : List Item) (cl : Clauses) (mode : ℕ)
        → let (ds, d) = items cs cl in
          bit (apply_items mask ds d mode) k ≡ run_clauses k who cl (bit (apply_all mask cs mode) k)
    bit-apply_clauses cs (bare z) mode = bit-apply_item_bare z (apply_all mask cs mode)
    bit-apply_clauses cs (last z t) mode = bit-apply_item z t (apply_all mask cs mode)
    bit-apply_clauses cs (more z t cl) mode =
        bit-apply_clauses (cs ++ item z t ∷ []) cl mode
        ∙ ap (λ m. run_clauses k who cl (bit m k)) (apply_all-snoc mask cs (item z t) mode)
        ∙ ap (run_clauses k who cl) (bit-apply_item z t (apply_all mask cs mode))

-- The groups as `apply_modes` sets them: all, if none was named.
abbrev pub defaulted : ℕ → ℕ
defaulted groups = if groups == 0 then bit_or groups pg_all else groups

union-ne-zero :
    (acc : ℕ) (ws : List Who) → acc < 16 → (acc == 0) ≡ false → (union who_flag acc ws == 0) ≡ false
union-ne-zero acc [] h ne = ne
union-ne-zero acc (w ∷ ws) h ne =
    let both = unites acc (who_flag w) h (who_flag-lt w) in
    union-ne-zero (bit_or acc (who_flag w)) ws both.small (rw (both.empty, ne))

first-ne-zero : (w : Who) → (bit_or 0 (who_flag w) == 0) ≡ false
first-ne-zero (of user) = refl
first-ne-zero (of group) = refl
first-ne-zero (of others) = refl
first-ne-zero everyone = refl

pub defaulted-lt : (ws : List Who) → defaulted (union who_flag 0 ws) < 16
defaulted-lt [] = omega arith
defaulted-lt (w ∷ ws) =
    let start = unites 0 (who_flag w) (omega arith) (who_flag-lt w) in
    rw (union-ne-zero (bit_or 0 (who_flag w)) ws start.small (first-ne-zero w))
      (union-lt who_flag who_flag-lt 0 (w ∷ ws) (omega arith))

bit-group_mask-meant :
    (k : ℕ)
    → k < 32
    → (ws : List Who) → bit (group_mask (defaulted (union who_flag 0 ws))) k ≡ as_bit (meant k ws)
bit-group_mask-meant k lt [] = bit-group_mask 1 k (omega arith) lt
bit-group_mask-meant k lt (w ∷ ws) =
    let start = unites 0 (who_flag w) (omega arith) (who_flag-lt w) in
    rw (union-ne-zero (bit_or 0 (who_flag w)) ws start.small (first-ne-zero w)) (
      bit-group_mask (union who_flag 0 (w ∷ ws)) k
        (union-lt who_flag who_flag-lt 0 (w ∷ ws) (omega arith)) lt
      ∙ ap as_bit (who-union k lt (w ∷ ws)))

-- The list of a symbolic mode, under the mask of its groups, does to each bit what the mode says.
pub bit-apply_items :
    (ws : List Who) (cl : Clauses) (mode k : ℕ)
    → k < 32
    → let (ds, d) = items [] cl in
      bit (apply_items (group_mask (defaulted (union who_flag 0 ws))) ds d mode) k
      ≡ run_clauses k (meant k ws) cl (bit mode k)
unfolding apply_all
bit-apply_items ws cl mode k lt =
    bit-apply_clauses k lt (group_mask (defaulted (union who_flag 0 ws))) (meant k ws)
      (group_mask-lt _ (defaulted-lt ws)) (bit-group_mask-meant k lt ws) [] cl mode
