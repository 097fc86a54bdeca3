-- ===== src/Ls/Order.antt =====
-- ls/main.c: what `list_routine` shows does not depend on the order in which the directory is read.
use os_tasks.Base.{
  ℕ, suc, ◌+◌, ◌%◌, ◌^◌, ◌<◌, Bool, true, false, not, ◌||◌, ltb, List, [], ◌∷◌, ◌++◌, length,
  Option, none, some, Option-cases, inl, inr, has, if◌then◌else◌, ◌≡◌, refl, sym, ap, ◌∙◌, arith,
}
use mathlib.Core.Logic.Or
use native.Mathlib.Nat.{ℕ_set}
use mathlib.Core.List.{Mem, Perm, foldr, mem-cons, not-mem-nil, mem-cons_self, mem-cons_of_mem}
use mathlib.Core.List.Perm
use os_tasks.Ls.World.{Stat, World}
use os_tasks.Ls.Listing.{
  ls_all, path_size, err_opendir, value, error, is_hidden, prepare_path, Counted, count_entry,
  count_files,
}

-- Sums that wrap around at 2 ^ 64.
wrapped_sum :
    (b : Bool) (x a t : ℕ)
    → ((if b then (x + a) % 2 ^ 64 else x) + t) % 2 ^ 64
      ≡ (x + ((if b then a else 0) + t) % 2 ^ 64) % 2 ^ 64
wrapped_sum true x a t = omega arith
wrapped_sum false x a t = omega arith

wrapped_low : (b : Bool) (x a : ℕ) → x < 2 ^ 64 → (if b then (x + a) % 2 ^ 64 else x) < 2 ^ 64
wrapped_low true x a h = omega arith
wrapped_low false x a h = h

module _ (w : World) (flags : ℕ) (prefix : List ℕ) where
  abbrev pub full_path : List ℕ → List ℕ
  full_path name = prefix ++ b'/' ∷ name

  -- Every path fits into `_path`.
  abbrev pub AllFit : List (List ℕ) → Type 0
  AllFit names = (n : List ℕ) → Mem n names → length prefix + 1 + length n < path_size

  -- The blocks that an entry adds, if its file is there.
  abbrev pub cost_of : List ℕ → Option Stat → Option ℕ
  cost_of name none = none
  cost_of name (some st) =
      some (if has flags ls_all || not (is_hidden name) then st.st_blocks else 0)

  abbrev pub cost : List ℕ → Option ℕ
  cost name = cost_of name (w.lstat (full_path name))

  abbrev pub add_cost : Option ℕ → Option ℕ → Option ℕ
  add_cost none b = none
  add_cost (some a) none = none
  add_cost (some a) (some b) = some ((a + b) % 2 ^ 64)

  -- The blocks of all entries, if all files are there.
  abbrev pub total_cost : List (List ℕ) → Option ℕ
  total_cost [] = some 0
  total_cost (n ∷ names) = add_cost (cost n) (total_cost names)

  pub prepare_path-fits :
      (name : List ℕ)
      → length prefix + 1 + length name < path_size
      → prepare_path prefix name ≡ some (full_path name)
  unfolding prepare_path
  prepare_path-fits name h =
      let fits : ltb (length prefix + 1 + length name) path_size ≡ true = ground arith in
      rw fits refl

  pub AllFit-tail : (n : List ℕ) (names : List (List ℕ)) → AllFit (n ∷ names) → AllFit names
  AllFit-tail n names fits m h = fits m (mem-cons_of_mem n h)

  -- With a file that is not there the count ends with an error, and with all there it gives their sum.
  pub count_files-total :
      (names : List (List ℕ)) (c : Counted)
      → AllFit names
      → c.blocks < 2 ^ 64
      → (h : ℕ) × (count_files w flags prefix names c ≡ elim (total_cost names) [
        | none ↦ error err_opendir
        | some t ↦ value (record {
          files_list_size = c.files_list_size + length names;
          hidden_files_list_size = h;
          blocks = (c.blocks + t) % 2 ^ 64;
        })
      ])
  unfolding count_files count_entry
  count_files-total [] c fits low =
      let size : c.files_list_size ≡ c.files_list_size + 0 = omega arith in
      let sum : c.blocks ≡ (c.blocks + 0) % 2 ^ 64 = omega arith in
      (
        c.hidden_files_list_size,
        λ i. value (record {
          files_list_size = size i;
          hidden_files_list_size = c.hidden_files_list_size;
          blocks = sum i;
        }),
      )
  count_files-total (n ∷ names) c fits low =
      let path = prepare_path-fits n (fits n mem-cons_self) in
      elim (Option-cases (w.lstat (full_path n))) [
        | inl gone ↦ (0, rw (path, count_files, gone))
        | inr (st, there) ↦
            let visible : Bool = has flags ls_all || not (is_hidden n) in
            let c' : Counted = count_entry w flags prefix n st c in
            let (h, ih) =
              count_files-total names c' (AllFit-tail n names fits)
                (wrapped_low visible c.blocks st.st_blocks low) in
            elim (Option-cases (total_cost names)) [
              | inl none_left ↦ (0, rw (path, count_files, there, none_left) (rw none_left at ih))
              | inr (t, rest) ↦
                  let size : c.files_list_size + 1 + length names
                      ≡ c.files_list_size + suc (length names) =
                    omega arith in
                  (
                    h,
                    rw (path, count_files, there, rest)
                        ((rw rest at ih) ∙ λ i. value (record {
                          files_list_size = size i;
                          hidden_files_list_size = h;
                          blocks = wrapped_sum visible c.blocks st.st_blocks t i;
                        })),
                  )
            ]
      ]

  add_cost_swap : (a b x : Option ℕ) → add_cost a (add_cost b x) ≡ add_cost b (add_cost a x)
  add_cost_swap none none x = refl
  add_cost_swap none (some b) x = refl
  add_cost_swap (some a) none x = refl
  add_cost_swap (some a) (some b) none = refl
  add_cost_swap (some a) (some b) (some x) = ap some (omega arith)

  total_cost-foldr :
      (names : List (List ℕ)) → total_cost names ≡ foldr (λ n t. add_cost (cost n) t) (some 0) names
  total_cost-foldr [] = refl
  total_cost-foldr (n ∷ names) = ap (add_cost (cost n)) (total_cost-foldr names)

  pub total_cost-perm : (l r : List (List ℕ)) → Perm l r → total_cost l ≡ total_cost r
  total_cost-perm l r p =
      let is_set : IsSet (Option ℕ) = hlevel in
      total_cost-foldr l
      ∙ Perm.foldr-eq is_set (λ n t. add_cost (cost n) t)
          (λ a b x. add_cost_swap (cost a) (cost b) x) p (some 0)
      ∙ sym (total_cost-foldr r)

  add_cost-none : (a : Option ℕ) → add_cost a none ≡ none
  add_cost-none none = refl
  add_cost-none (some a) = refl

  pub total_cost-missing :
      (name : List ℕ)
      → w.lstat (full_path name) ≡ none
      → (names : List (List ℕ)) → Mem name names
      → total_cost names ≡ none
  total_cost-missing name gone [] m = absurd (not-mem-nil m)
  total_cost-missing name gone (n ∷ names) m =
      let is_set : IsSet (Option ℕ) = hlevel in
      Or.elim (is_set (total_cost (n ∷ names)) none) (mem-cons.0 m)
        (λ e.
          ap (λ o. add_cost (cost_of n o) (total_cost names))
            (ap (λ x. w.lstat (full_path x)) (sym e) ∙ gone))
        (λ later.
          ap (add_cost (cost n)) (total_cost-missing name gone names later)
          ∙ add_cost-none (cost n))

  pub add_cost-some :
      (a b : Option ℕ) (t : ℕ)
      → add_cost a b ≡ some t
      → ((x : ℕ) × (a ≡ some x)) × ((y : ℕ) × (b ≡ some y))
  add_cost-some none b t e = cc
  add_cost-some (some a) none t e = cc
  add_cost-some (some a) (some b) t e = ((a, refl), (b, refl))

  pub cost_of-some :
      (name : List ℕ) (o : Option Stat) (t : ℕ)
      → cost_of name o ≡ some t
      → (st : Stat) × (o ≡ some st)
  cost_of-some name none t e = cc
  cost_of-some name (some st) t e = (st, refl)

length-foldr : (l : List (List ℕ)) → length l ≡ foldr (λ n k. suc k) 0 l
length-foldr [] = refl
length-foldr (n ∷ l) = ap suc (length-foldr l)

pub length-perm : (l r : List (List ℕ)) → Perm l r → length l ≡ length r
length-perm l r p =
    length-foldr l ∙ Perm.foldr-eq ℕ_set (λ n k. suc k) (λ a b x. refl) p 0 ∙ sym (length-foldr r)
