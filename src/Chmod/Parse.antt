-- ===== src/Chmod/Parse.antt =====
-- chmod/mychmod.c, `parse_mode_str`: which strings it accepts, and what it makes of them.
use os_tasks.Base.{
  NoNul-append, NoNul, ℕ, ◌-◌, ◌^◌, ◌==◌, false, List, [], ◌∷◌, map, length, Option-cases, ◌≡◌, ◌≢◌,
  refl, sym, ap, ◌∙◌, ◌⊎◌, inl, inr, arith, ok, failure, ◌>>=◌,
}
use os_tasks.Chmod.State.{Ptr, Globals, initial_globals}
use os_tasks.Chmod.Grammar.{
  Sign, plus, minus, Who, of, everyone, Class, Clauses, Symbolic, sign_char, who_char, clauses_text,
  text, class_char, Letter, letter_char, Content, copied, perms, content_text, bare, last, more,
}
use os_tasks.Chmod.Parser.{is_octal, octal_span, parse_mode_str}
use os_tasks.Chmod.Scan.{scan}
use os_tasks.Chmod.Simulation.{parse_mode_str-scan}
use os_tasks.Chmod.Links.{linked, finish}
use os_tasks.Chmod.Language.{clauses_text_lem, head_sign, tail_text}
use os_tasks.Chmod.Sound.{meaning, scan-text, scanned}

-- The globals after a symbolic mode: the groups, and the clauses linked in their order.
abbrev pub parsed : (ℕ → Ptr) → Symbolic → Globals
parsed leftover m = let (groups, (cs, c)) = meaning 0 m in linked leftover groups cs c

abbrev pub all_ones : ℕ
all_ones = 2 ^ 32 - 1

-- No symbolic mode begins with an octal digit, and none contains the byte 0.
sign-not-octal : (z : Sign) → is_octal (sign_char z) ≡ false
sign-not-octal plus = refl
sign-not-octal minus = refl

who-not-octal : (w : Who) → is_octal (who_char w) ≡ false
who-not-octal (of Class.user) = refl
who-not-octal (of Class.group) = refl
who-not-octal (of Class.others) = refl
who-not-octal everyone = refl

octal_span-ne-length :
    (x : ℕ) (r : List ℕ) → is_octal x ≡ false → (octal_span (x ∷ r) == length (x ∷ r)) ≡ false
unfolding octal_span
octal_span-ne-length x r h = rw (h, octal_span) (ground arith)

text-not-octal :
    (ws : List Who) (cl : Clauses)
    → let s = text (record { who = ws; clauses = cl }) in (octal_span s == length s) ≡ false
text-not-octal [] cl =
    ap (λ s. octal_span s == length s) (clauses_text_lem cl)
    ∙ octal_span-ne-length (sign_char (head_sign cl)) (tail_text cl) (sign-not-octal (head_sign cl))
text-not-octal (w ∷ ws) cl =
    octal_span-ne-length (who_char w) (text (record { who = ws; clauses = cl })) (who-not-octal w)

NoNul-map : {A : Type 0} (f : A → ℕ) → ((a : A) → f a ≢ 0) → (xs : List A) → NoNul (map f xs)
NoNul-map f h [] = tt
NoNul-map f h (x ∷ xs) = (h x, NoNul-map f h xs)

class-ne-zero : (k : Class) → class_char k ≢ 0
class-ne-zero Class.user = omega arith
class-ne-zero Class.group = omega arith
class-ne-zero Class.others = omega arith

letter-ne-zero : (p : Letter) → letter_char p ≢ 0
letter-ne-zero Letter.read = omega arith
letter-ne-zero Letter.write = omega arith
letter-ne-zero Letter.exec = omega arith

who-ne-zero : (w : Who) → who_char w ≢ 0
who-ne-zero (of k) = class-ne-zero k
who-ne-zero everyone = omega arith

sign-ne-zero : (z : Sign) → sign_char z ≢ 0
sign-ne-zero plus = omega arith
sign-ne-zero minus = omega arith

NoNul-content : (t : Content) → NoNul (content_text t)
NoNul-content (copied k ks) = (class-ne-zero k, NoNul-map class_char class-ne-zero ks)
NoNul-content (perms p ps) = (letter-ne-zero p, NoNul-map letter_char letter-ne-zero ps)

NoNul-clauses : (cl : Clauses) → NoNul (clauses_text cl)
NoNul-clauses (bare z) = (sign-ne-zero z, tt)
NoNul-clauses (last z t) = (sign-ne-zero z, NoNul-content t)
NoNul-clauses (more z t cl) = (
  sign-ne-zero z,
  NoNul-append (content_text t) (clauses_text cl) (NoNul-content t) (NoNul-clauses cl),
)

-- The text of a symbolic mode is accepted: `parsed_mode` gets its groups and its clauses, linked in
-- their order, and the mask of ones is returned.
pub parse_mode_str-text :
    (leftover : ℕ → Ptr) (m : Symbolic)
    → parse_mode_str leftover (text m) initial_globals ≡ ok (parsed leftover m, all_ones)
parse_mode_str-text leftover m =
    let nz =
      NoNul-append (map who_char m.who) (clauses_text m.clauses)
        (NoNul-map who_char who-ne-zero m.who) (NoNul-clauses m.clauses) in
    parse_mode_str-scan leftover (text m) nz (text-not-octal m.who m.clauses)
    ∙ ap (λ o. finish leftover o >>= λ g. ok (g, all_ones)) (scan-text 0 m.who m.clauses)

-- A string without zero bytes that is not all octal digits is either the text of a symbolic mode,
-- and is accepted as that, or is the text of none, and the program exits with failure. There is no third case: no
-- write goes through a bad pointer, and the loop comes to an end.
pub parse_mode_str-decides :
    (leftover : ℕ → Ptr) (s : List ℕ)
    → NoNul s
    → (octal_span s == length s) ≡ false
    → ((m : Symbolic) × (s ≡ text m)
        × (parse_mode_str leftover s initial_globals ≡ ok (parsed leftover m, all_ones)))
      ⊎ ((parse_mode_str leftover s initial_globals ≡ failure) × ((m : Symbolic) → s ≢ text m))
parse_mode_str-decides leftover s nz symbolic =
    let run = parse_mode_str-scan leftover s nz symbolic in
    elim (Option-cases (scan 0 s)) [
      | inl rejected ↦ inr (
        rw run (rw rejected),
        λ m e. cc (sym rejected ∙ ap (scan 0) e ∙ scan-text 0 m.who m.clauses),
      )
      | inr (res, accepted) ↦
          let (m, e, same) = scanned 0 s res accepted in
          inl (
            m,
            e,
            ap (λ t. parse_mode_str leftover t initial_globals) e ∙ parse_mode_str-text leftover m,
          )
    ]
