-- ===== src/Archive/Appended.antt =====
-- archive/archiver.c, the copying loops of `insert_files_routine`.
use os_tasks.Base.{
  ℕ, zero, suc, ◌+◌, ◌<◌, ◌==◌, List, [], ◌∷◌, ◌++◌, length, take, drop, drop-add, length-drop,
  append-nil, length-append, Bool-cases, inl, inr, ok, ◌≡◌, refl, ap, ◌∙◌, arith,
}
use os_tasks.Archive.Slice.{at, written, write_bytes-written}
use os_tasks.Archive.Located.{written-append}
use os_tasks.Archive.Input.{append_loop, append_rest}

take_and_rest : (n : ℕ) (l : List ℕ) → take n l ++ drop (length (take n l)) l ≡ l
take_and_rest zero [] = refl
take_and_rest zero (x ∷ l) = refl
take_and_rest (suc n) [] = refl
take_and_rest (suc n) (x ∷ l) = ap (λ r. x ∷ r) (take_and_rest n l)

empty_take : (n : ℕ) (l : List ℕ) → length (take (suc n) l) ≡ 0 → l ≡ []
empty_take n [] h = refl
empty_take n (x ∷ l) h = absurd (omega arith)

append_loop-written :
    (fuel p : ℕ) (content out tail : List ℕ)
    → length (drop p content) < fuel
    → append_loop fuel (at content p) (written out tail)
      ≡ ok (written (out ++ drop p content) (drop (length (drop p content)) tail))
unfolding append_loop
append_loop-written zero p content out tail f = absurd (omega arith)
append_loop-written (suc fuel) p content out tail f =
    let left = drop p content in
    let bs = take 1024 left in
    elim (Bool-cases (length bs == 0)) [
      | inl done ↦
          let nothing : left ≡ [] = empty_take 1023 left (ground arith) in
          rw (done, append_loop, nothing, append-nil)
      | inr more ↦
          let some_read : 0 < length bs = ground arith in
          let rest : drop (p + length bs) content ≡ drop (length bs) left =
            drop-add p (length bs) content in
          let whole = take_and_rest 1024 left in
          let shorter : length (drop (p + length bs) content) < fuel =
            omega
              (arith, ap length rest, ap length whole, length-append bs (drop (length bs) left)) in
          rw (more, append_loop, write_bytes-written bs out tail)
            (append_loop-written fuel (p + length bs) content (out ++ bs) (drop (length bs) tail)
                shorter
              ∙ ap (λ r. ok (written (out ++ bs ++ r) (drop (length r) (drop (length bs) tail))))
                  rest
              ∙ ap ok (written-append out bs (drop (length bs) left) tail)
              ∙ ap (λ r. ok (written (out ++ r) (drop (length r) tail))) whole)
    ]

-- All that is left of the file is appended.
pub append_rest-written :
    (p : ℕ) (content out tail : List ℕ)
    → append_rest (at content p) (written out tail)
      ≡ ok (written (out ++ drop p content) (drop (length (drop p content)) tail))
unfolding append_rest
append_rest-written p content out tail =
    append_loop-written (length content + 1) p content out tail
      (omega (arith, length-drop p content))
