-- ===== src/Chmod/Effect.antt =====
-- chmod/mychmod.c, `apply_modes`: what the masks and the change of one node are, bit by bit.
use os_tasks.Base.{
  ℕ, zero, suc, ◌^◌, ◌<◌, Bool, true, false, ◌&&◌, ◌||◌, ◌==◌, ltb, not, bit, bit_and, bit_or,
  ltb→lt, ==_iff, ◌≡◌, refl, arith,
}
use os_tasks.Chmod.State.{pg_all}
use os_tasks.Chmod.Grammar.{user, group, others, read, write, exec, class_flag, letter_flag}
use os_tasks.Chmod.Apply.{group_mask, perm_mask}
use os_tasks.Chmod.Covers.{class_covers, letter_covers}

-- Every number below a bound, by evaluation.
below : ℕ → (ℕ → Bool) → Bool
below zero p = true
below (suc n) p = p n && below n p

of_below : (n : ℕ) (p : ℕ → Bool) (x : ℕ) → below n p ≡ true → x < n → p x ≡ true
unfolding below
of_below zero p x h lt = absurd (omega arith)
of_below (suc n) p x h lt = ground (arith, of_below n p x)

abbrev eqb : Bool → Bool → Bool
eqb true b = b
eqb false b = not b

abbrev pub as_bit : Bool → ℕ
as_bit true = 1
as_bit false = 0

-- The flags of a set are four bits, and a bit is in the set if a member has it.
abbrev pub in_set : ℕ → ℕ → Bool
in_set flags flag = not (bit_and flags flag == 0)

abbrev pub has_class : ℕ → ℕ → Bool
has_class flags k =
    (in_set flags (class_flag user) && class_covers k user)
    || (in_set flags (class_flag group) && class_covers k group)
    || (in_set flags (class_flag others) && class_covers k others)

abbrev pub has_letter : ℕ → ℕ → Bool
has_letter flags k =
    (in_set flags (letter_flag read) && letter_covers k read)
    || (in_set flags (letter_flag write) && letter_covers k write)
    || (in_set flags (letter_flag exec) && letter_covers k exec)

abbrev pub has_who : ℕ → ℕ → Bool
has_who flags k = has_class flags k || (in_set flags pg_all && ltb k 9)

group_table :
    below 16 (λ flags. below 32 (λ k. bit (group_mask flags) k == as_bit (has_who flags k))) ≡ true
unfolding below group_mask bit
group_table = refl

group_mask_bound : below 16 (λ flags. ltb (group_mask flags) 512) ≡ true
unfolding below group_mask
group_mask_bound = refl

perm_table :
    below 16 (λ flags. below 32 (λ k.
      (bit (perm_mask true flags) k == as_bit (has_class flags k))
      && (bit (perm_mask false flags) k == as_bit (has_letter flags k))))
    ≡ true
unfolding below perm_mask bit
perm_table = refl

-- Adding a flag to a set adds what it covers.
union_table :
    below 16 (λ a. below 16 (λ b.
      ltb (bit_or a b) 16
      && eqb (bit_or a b == 0) (a == 0 && b == 0)
      && below 32 (λ k.
        (eqb (has_who (bit_or a b) k) (has_who a k || has_who b k))
        && (eqb (has_class (bit_or a b) k) (has_class a k || has_class b k))
        && (eqb (has_letter (bit_or a b) k) (has_letter a k || has_letter b k)))))
    ≡ true
unfolding below
union_table = refl

and_parts : (a b : Bool) → (a && b) ≡ true → (a ≡ true) × (b ≡ true)
and_parts a b h = ground arith

eqb→eq : (a b : Bool) → eqb a b ≡ true → a ≡ b
eqb→eq a b h = ground arith

pub group_mask-lt : (g : ℕ) → g < 16 → group_mask g < 2 ^ 32
group_mask-lt g h =
    let small : group_mask g < 512 = ltb→lt _ _ (of_below 16 _ g group_mask_bound h) in omega arith

pub bit-group_mask : (g k : ℕ) → g < 16 → k < 32 → bit (group_mask g) k ≡ as_bit (has_who g k)
bit-group_mask g k h h' = (==_iff _ _).0 (of_below 32 _ k (of_below 16 _ g group_table h) h')

pub bit-perm_mask :
    (f k : ℕ)
    → f < 16
    → k < 32
    → (bit (perm_mask true f) k ≡ as_bit (has_class f k))
      × (bit (perm_mask false f) k ≡ as_bit (has_letter f k))
bit-perm_mask f k h h' =
    let (p, q) = and_parts _ _ (of_below 32 _ k (of_below 16 _ f perm_table h) h') in
    ((==_iff _ _).0 p, (==_iff _ _).0 q)

pub record Unites (a b : ℕ) : Type 0 where
  pub small : bit_or a b < 16
  pub empty : (bit_or a b == 0) ≡ (a == 0 && b == 0)
  pub who : (k : ℕ) → k < 32 → has_who (bit_or a b) k ≡ (has_who a k || has_who b k)
  pub class : (k : ℕ) → k < 32 → has_class (bit_or a b) k ≡ (has_class a k || has_class b k)
  pub letter : (k : ℕ) → k < 32 → has_letter (bit_or a b) k ≡ (has_letter a k || has_letter b k)

pub unites : (a b : ℕ) → a < 16 → b < 16 → Unites a b
unites a b h h' =
    let (sizes, bits) = and_parts _ _ (of_below 16 _ b (of_below 16 _ a union_table h) h') in
    let (small, empty) = and_parts _ _ sizes in
    record {
      small = ltb→lt _ _ small;
      empty = eqb→eq _ _ empty;
      who = λ k l. eqb→eq _ _ (and_parts _ _ (and_parts _ _ (of_below 32 _ k bits l)).0).0;
      class = λ k l. eqb→eq _ _ (and_parts _ _ (and_parts _ _ (of_below 32 _ k bits l)).0).1;
      letter = λ k l. eqb→eq _ _ (and_parts _ _ (of_below 32 _ k bits l)).1;
    }
