-- ===== src/Chmod/Octal.antt =====
-- chmod/mychmod.c: a mode in octal digits, and the modes that change less than they say.
use os_tasks.Base.{
  NoNul, ℕ, zero, suc, ◌+◌, ◌-◌, ◌*◌, ◌/◌, ◌%◌, ◌^◌, ◌<◌, ◌==◌, true, false, ◌&&◌, ◌||◌, List, [],
  ◌∷◌, ◌++◌, length, Bool-cases, ◌≡◌, ◌≢◌, refl, ap, ◌∙◌, arith, ok, inl, inr, ltb, bit,
}
use native.Mathlib.Nat.{pow-suc}
use os_tasks.Chmod.State.{Ptr, null, initial_globals}
use os_tasks.Chmod.Grammar.{
  Sign, plus, minus, Class, user, group, others, of, copied, last, Symbolic, text,
}
use os_tasks.Chmod.Parser.{is_octal, octal_span, octal_value, strtoul_octal, parse_mode_str}
use os_tasks.Chmod.Covers.{class_covers, put}
use os_tasks.Chmod.Parse.{parse_mode_str-decides}
use os_tasks.Chmod.Program.{CString, exit_failure, FileModes, main}
use os_tasks.Chmod.Correct.{visit, main-symbolic, files_loop-visit_number}

-- The `k` lowest octal digits of a number.
abbrev pub octal_text : ℕ → ℕ → List ℕ
octal_text zero n = []
octal_text (suc k) n = octal_text k (n / 8) ++ (b'0' + n % 8) ∷ []

octal_span-snoc :
    (s : List ℕ) (c : ℕ)
    → octal_span s ≡ length s
    → is_octal c ≡ true
    → octal_span (s ++ c ∷ []) ≡ length (s ++ c ∷ [])
unfolding octal_span
octal_span-snoc [] c h e = rw e
octal_span-snoc (x ∷ s) c h e = elim (Bool-cases (is_octal x)) [
  | inl digit ↦ rw digit (ap suc (octal_span-snoc s c (ground arith) e))
  | inr other ↦ absurd (ground arith)
]

octal_value-snoc :
    (acc : ℕ) (s : List ℕ) (c : ℕ)
    → octal_value acc (s ++ c ∷ []) ≡ octal_value acc s * 8 + (c - b'0')
unfolding octal_value
octal_value-snoc acc [] c = refl
octal_value-snoc acc (x ∷ s) c = octal_value-snoc (acc * 8 + (x - b'0')) s c

octal_span-octal_text : (k n : ℕ) → octal_span (octal_text k n) ≡ length (octal_text k n)
octal_span-octal_text zero n = unfold octal_span in refl
octal_span-octal_text (suc k) n =
    octal_span-snoc (octal_text k (n / 8)) (b'0' + n % 8) (octal_span-octal_text k (n / 8))
      (ground arith)

octal_value-octal_text : (k n : ℕ) → n < 8 ^ k → octal_value 0 (octal_text k n) ≡ n
octal_value-octal_text zero n h = unfold octal_value in (omega arith)
octal_value-octal_text (suc k) n h =
    let rest = octal_value-octal_text k (n / 8) (omega (arith, pow-suc 8 k)) in
    omega (arith, octal_value-snoc 0 (octal_text k (n / 8)) (b'0' + n % 8), rest)

-- The octal digits of a number are read back as that number, cut to the 32 bits of a `mode_t`.
pub parse_mode_str-octal :
    (leftover : ℕ → Ptr) (k n : ℕ)
    → n < 8 ^ k
    → n < 2 ^ 64
    → parse_mode_str leftover (octal_text k n) initial_globals
      ≡ ok (record initial_globals { is_number = true }, n % 2 ^ 32)
unfolding parse_mode_str strtoul_octal
parse_mode_str-octal leftover k n h h' =
    let digits : (octal_span (octal_text k n) == length (octal_text k n)) ≡ true =
      ground (arith, octal_span-octal_text k n) in
    let fits : ltb n (2 ^ 64) ≡ true = ground arith in
    rw (digits, octal_value-octal_text k n h, fits)

-- No bit belongs to two classes.
disjoint :
    (c d : Class) (k : ℕ)
    → c ≢ d
    → ((class_covers k d || false) && (class_covers k c || false)) ≡ false
disjoint user user k ne = absurd (ne refl)
disjoint user group k ne = ground arith
disjoint user others k ne = ground arith
disjoint group user k ne = ground arith
disjoint group group k ne = absurd (ne refl)
disjoint group others k ne = ground arith
disjoint others user k ne = ground arith
disjoint others group k ne = ground arith
disjoint others others k ne = absurd (ne refl)

put-false : (z : Sign) (v : ℕ) → put z false v ≡ v
put-false plus v = refl
put-false minus v = refl

module _ {F : Type 0} (os : FileModes F) (leftover : ℕ → Ptr) where
  -- With an octal mode each file in turn gets that mode, cut to 32 bits.
  pub main-octal :
      (k n : ℕ)
      → n < 8 ^ k
      → n < 2 ^ 64
      → (path : CString) (paths : List CString) (fs : F)
      → main os leftover (octal_text k n ∷ path ∷ paths) fs
        ≡ ok (visit os (λ _. n % 2 ^ 32) (path ∷ paths) fs)
  unfolding main
  main-octal k n h h' path paths fs =
      rw (parse_mode_str-octal leftover k n h h', main)
        (files_loop-visit_number os leftover (n % 2 ^ 32) 0 (path ∷ paths) fs)

  -- A mode that is neither octal digits nor the text of a symbolic mode ends the run with failure
  -- before any file is touched.
  pub main_invalid :
      (s : CString)
      → NoNul s
      → (octal_span s == length s) ≡ false
      → ((m : Symbolic) → s ≢ text m)
      → (path : CString) (paths : List CString) (fs : F)
      → main os leftover (s ∷ path ∷ paths) fs ≡ ok (exit_failure, fs)
  unfolding main
  main_invalid s nz symbolic other path paths fs =
      elim (parse_mode_str-decides leftover s nz symbolic) [
        | inl (m, e, _) ↦ absurd (other m e)
        | inr (failed, _) ↦ rw (failed, main)
      ]

  -- The mode "d+c" or "d-c" for two different classes of `ugo` changes no bit of any file's mode,
  -- whatever permissions the class `c` has, and visits the files in turn. It needs memory that holds
  -- NULL at `next` of the one new node.
  pub main_copy_ignored :
      (c d : Class) (z : Sign)
      → c ≢ d
      → leftover 0 ≡ null
      → (path : CString) (paths : List CString) (fs : F)
      → let m : Symbolic = record { who = of d ∷ []; clauses = last z (copied c []) } in
        (f : ℕ → ℕ) × (main os leftover (text m ∷ path ∷ paths) fs
          ≡ ok (visit os f (path ∷ paths) fs))
        × ((mode k : ℕ) → k < 32 → bit (f mode) k ≡ bit mode k)
  main_copy_ignored c d z ne settled path paths fs =
      let m : Symbolic = record { who = of d ∷ []; clauses = last z (copied c []) } in
      let (f, run, bits) = main-symbolic os leftover m settled path paths fs in
      (
        f,
        run,
        λ mode k lt.
            bits mode k lt
            ∙ ap (λ b. put z b (bit mode k)) (disjoint c d k ne)
            ∙ put-false z (bit mode k),
      )
