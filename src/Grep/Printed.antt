-- ===== src/Grep/Printed.antt =====
-- cat+grep/mygrep.c: what `list_routine` prints, and one run behind another.
use os_tasks.Base.{
  join_first, newline, subst, ◌≢◌, arith, ℕ, Bool, true, false, ◌&&◌, ◌==◌, List, [], ◌∷◌, ◌++◌,
  Option, none, some, before_zero, lines, NoNul, concat, AreLines, lines-AreLines, lines-concat,
  concat-lines, Bool-cases, inl, inr, ◌≡◌, refl, sym, ap, ◌∙◌,
}
use os_tasks.Grep.Program.{
  Match, matched, no_match, match_failed, is_kept, System, printed, print_matches, open_file,
  list_routine,
}

-- The lines that are kept.
abbrev pub select : (List ℕ → Bool) → List (List ℕ) → List (List ℕ)
select p [] = []
select p (l ∷ ls) = elim (p l) [ true ↦ l ∷ select p ls | false ↦ select p ls ]

select-AreLines : (p : List ℕ → Bool) (ls : List (List ℕ)) → AreLines ls → AreLines (select p ls)
select-AreLines p [] h = tt
select-AreLines p (l ∷ ls) (inl (whole, rest)) = elim (Bool-cases (p l)) [
  | inl e ↦ rw (e, select) (inl (whole, select-AreLines p ls rest))
  | inr e ↦ rw (e, select) (select-AreLines p ls rest)
]
select-AreLines p (l ∷ ls) (inr (left, none_left)) = elim (Bool-cases (p l)) [
  | inl e ↦ rw (e, none_left, select) (inr (left, refl))
  | inr e ↦ rw (e, none_left, select) tt
]

-- Every line is without zero bytes.
abbrev NoNuls : List (List ℕ) → Type 0
NoNuls [] = Unit
NoNuls (l ∷ ls) = NoNul l × NoNuls ls

join_first-NoNuls : (c : ℕ) (ls : List (List ℕ)) → c ≢ 0 → NoNuls ls → NoNuls (join_first c ls)
join_first-NoNuls c [] h hs = ((h, tt), tt)
join_first-NoNuls c (l ∷ ls) h hs = ((h, hs.0), hs.1)

lines-NoNuls : (s : List ℕ) → NoNul s → NoNuls (lines s)
lines-NoNuls [] h = tt
lines-NoNuls (c ∷ s) h = elim (Bool-cases (c == newline)) [
  | inl e ↦ rw (e, lines) ((h.0, tt), lines-NoNuls s h.1)
  | inr e ↦ rw (e, lines) (join_first-NoNuls c (lines s) h.0 (lines-NoNuls s h.1))
]

before_zero-NoNul : (s : List ℕ) → NoNul s → before_zero s ≡ s
unfolding before_zero
before_zero-NoNul [] h = refl
before_zero-NoNul (c ∷ s) h =
    let kept : (c == 0) ≡ false = ground (arith, h.0) in
    rw (kept, before_zero) (ap (λ r. c ∷ r) (before_zero-NoNul s h.1))

-- Does `regexec` find the pattern in the line, or fail?
abbrev pub keeps : (List ℕ → Match) → List ℕ → Bool
keeps regexec line = is_kept (regexec line)

is_kept-found : (m : Match) → is_kept m ≡ true → m ≢ no_match
is_kept-found matched h e = cc
is_kept-found no_match h e = cc
is_kept-found match_failed h e = cc

is_kept-refused : (m : Match) → is_kept m ≡ false → m ≡ no_match
is_kept-refused matched h = cc
is_kept-refused no_match h = refl
is_kept-refused match_failed h = cc

print_matches-select :
    (regexec : List ℕ → Match) (ls : List (List ℕ))
    → NoNuls ls
    → print_matches regexec ls ≡ concat (select (keeps regexec) ls)
unfolding print_matches
print_matches-select regexec [] h = refl
print_matches-select regexec (l ∷ ls) h =
    let all = before_zero-NoNul l h.0 in
    let ih = print_matches-select regexec ls h.1 in
    elim (Bool-cases (keeps regexec l)) [
      | inl e ↦
          rw (all, e, print_matches, select, ih)
            (ap (λ r. r ++ concat (select (keeps regexec) ls)) all)
      | inr e ↦ rw (all, e, print_matches, select, ih)
    ]

select-select :
    (p q : List ℕ → Bool) (ls : List (List ℕ))
    → select q (select p ls) ≡ select (λ l. p l && q l) ls
select-select p q [] = refl
select-select p q (l ∷ ls) =
    let ih = select-select p q ls in
    elim (Bool-cases (p l)) [
      | inl e ↦ elim (Bool-cases (q l)) [
        | inl e' ↦ rw (e, e', select, ih)
        | inr e' ↦ rw (e, e', select, ih)
      ]
      | inr e ↦ rw (e, select, ih)
    ]

select-all :
    (p : List ℕ → Bool) (ls : List (List ℕ)) → ((l : List ℕ) → p l ≡ true) → select p ls ≡ ls
select-all p [] h = refl
select-all p (l ∷ ls) h = let all = h l in rw (all, select) (ap (λ r. l ∷ r) (select-all p ls h))

NoNuls-select : (p : List ℕ → Bool) (ls : List (List ℕ)) → NoNuls ls → NoNuls (select p ls)
NoNuls-select p [] h = tt
NoNuls-select p (l ∷ ls) h = elim (Bool-cases (p l)) [
  | inl e ↦ rw (e, select) (h.0, NoNuls-select p ls h.1)
  | inr e ↦ rw (e, select) (NoNuls-select p ls h.1)
]

printed_inj : {a b : List ℕ} → printed a ≡ printed b → a ≡ b
printed_inj e = cc

list_routine-lines :
    (sys : System) (pattern : List ℕ) (f : Option (List ℕ)) (s : List ℕ) (regexec : List ℕ → Match)
    → sys.errno ≡ 0
    → open_file sys f ≡ some s
    → sys.regcomp pattern ≡ some regexec
    → NoNuls (lines s)
    → list_routine sys pattern f ≡ printed (concat (select (keeps regexec) (lines s)))
unfolding list_routine
list_routine-lines sys pattern f s regexec good opens valid h =
    rw (opens, valid, good, list_routine) (ap printed (print_matches-select regexec (lines s) h))

list_routine-kept :
    (sys : System) (pattern : List ℕ) (f : Option (List ℕ)) (s : List ℕ) (regexec : List ℕ → Match)
    → sys.errno ≡ 0
    → open_file sys f ≡ some s
    → sys.regcomp pattern ≡ some regexec
    → NoNul s
    → list_routine sys pattern f ≡ printed (concat (select (keeps regexec) (lines s)))
list_routine-kept sys pattern f s regexec good opens valid h =
    list_routine-lines sys pattern f s regexec good opens valid (lines-NoNuls s h)

-- Of some lines, those that `regexec` does not refuse, in their order.
pub data Matching (regexec : List ℕ → Match) : List (List ℕ) → List (List ℕ) → Type 0 where
  no_lines : Matching regexec [] []
  with_line :
      {l : List ℕ} {ls ms : List (List ℕ)}
      → regexec l ≢ no_match
      → Matching regexec ls ms
      → Matching regexec (l ∷ ls) (l ∷ ms)
  without_line :
      {l : List ℕ} {ls ms : List (List ℕ)}
      → regexec l ≡ no_match
      → Matching regexec ls ms
      → Matching regexec (l ∷ ls) ms

select-Matching :
    (regexec : List ℕ → Match) (ls : List (List ℕ))
    → Matching regexec ls (select (keeps regexec) ls)
select-Matching regexec [] = no_lines
select-Matching regexec (l ∷ ls) =
    let ih = select-Matching regexec ls in
    elim (Bool-cases (keeps regexec l)) [
      | inl e ↦ rw (e, select) (with_line (is_kept-found (regexec l) e) ih)
      | inr e ↦ rw (e, select) (without_line (is_kept-refused (regexec l) e) ih)
    ]

-- A file without zero bytes is cut into lines, each with its newline but perhaps the last, which make up the file;
-- of these exactly those that `regexec` does not refuse are printed, in their order and as they are, if the file can
-- be opened, the pattern is valid and no call has left an error.
pub list_routine-select :
    (sys : System) (pattern : List ℕ) (f : Option (List ℕ)) (s : List ℕ) (regexec : List ℕ → Match)
    → sys.errno ≡ 0
    → open_file sys f ≡ some s
    → sys.regcomp pattern ≡ some regexec
    → NoNul s
    → (all matching : List (List ℕ)) × AreLines all
      × (concat all ≡ s)
      × Matching regexec all matching
      × (list_routine sys pattern f ≡ printed (concat matching))
list_routine-select sys pattern f s regexec good opens valid h = (
  lines s,
  select (keeps regexec) (lines s),
  lines-AreLines s,
  concat-lines s,
  select-Matching regexec (lines s),
  list_routine-kept sys pattern f s regexec good opens valid h,
)

-- Two runs in a pipe, the second on the standard input: the lines of the file are printed in which
-- both find their patterns, as if in one run. The file is without zero bytes, and no call of either
-- run leaves an error.
pub list_routine-pipe :
    (sys sys' : System) (pattern pattern' : List ℕ) (f : Option (List ℕ)) (s out : List ℕ)
    (p q : List ℕ → Match)
    → sys.errno ≡ 0
    → sys'.errno ≡ 0
    → open_file sys f ≡ some s
    → sys.regcomp pattern ≡ some p
    → sys'.regcomp pattern' ≡ some q
    → NoNul s
    → list_routine sys pattern f ≡ printed out
    → sys'.stdin ≡ out
    → list_routine sys' pattern' none
      ≡ printed (concat (select (λ l. keeps p l && keeps q l) (lines s)))
list_routine-pipe sys sys' pattern pattern' f s out p q good good' opens valid valid' h run piped =
    let ls = select (keeps p) (lines s) in
    let first : printed out ≡ printed (concat ls) =
      sym run ∙ list_routine-kept sys pattern f s p good opens valid h in
    let text : out ≡ concat ls = printed_inj first in
    let are_lines : lines out ≡ ls =
      ap lines text ∙ lines-concat ls (select-AreLines (keeps p) (lines s) (lines-AreLines s)) in
    list_routine-lines sys' pattern' none out q good' (ap some piped) valid'
      (subst NoNuls (sym are_lines) (NoNuls-select (keeps p) (lines s) (lines-NoNuls s h)))
    ∙ ap (λ r. printed (concat r))
        (ap (select (keeps q)) are_lines ∙ select-select (keeps p) (keeps q) (lines s))

-- A pattern that `regexec` finds in every line: the file, which is without zero bytes, is printed byte
-- for byte, also a last line without a newline. No call leaves an error.
pub list_routine-all :
    (sys : System) (pattern : List ℕ) (f : Option (List ℕ)) (s : List ℕ) (regexec : List ℕ → Match)
    → sys.errno ≡ 0
    → open_file sys f ≡ some s
    → sys.regcomp pattern ≡ some regexec
    → NoNul s
    → ((l : List ℕ) → keeps regexec l ≡ true)
    → list_routine sys pattern f ≡ printed s
list_routine-all sys pattern f s regexec good opens valid h all =
    list_routine-kept sys pattern f s regexec good opens valid h
    ∙ ap printed (ap concat (select-all (keeps regexec) (lines s) all) ∙ concat-lines s)
