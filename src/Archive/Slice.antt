-- ===== src/Archive/Slice.antt =====
-- archive/archiver.c: `copy_file` copies a slice of the archive behind what was written before.
use os_tasks.Base.{
  ℕ, zero, suc, ◌+◌, ◌-◌, ◌*◌, ◌/◌, ◌<◌, ◌≤◌, ◌^◌, true, ltb, List, ◌++◌, length, length-append,
  length-take, length-drop, take, drop, take-prefix, drop-prefix, take-add, drop-add, append_assoc,
  append-nil, Outcome, ok, ◌≡◌, refl, sym, ap, ◌∙◌, arith, Bool-cases, inl, inr,
}
use os_tasks.Archive.Descriptor.{Descriptor, write_bytes, overwrite}
use os_tasks.Archive.Copy.{Copier, copy_chunk, copy_loop, copy_file}

-- A file that has been written up to the position; behind it stands what was there before.
abbrev pub written : List ℕ → List ℕ → Descriptor
written out tail = record { content = out ++ tail; pos = length out }

pub write_bytes-written :
    (bs out tail : List ℕ)
    → write_bytes bs (written out tail) ≡ written (out ++ bs) (drop (length bs) tail)
write_bytes-written bs out tail = λ i. record {
  content =
      (ap (λ l. l ++ (bs ++ drop (length out + length bs) (out ++ tail)))
            (take-prefix (length out) out tail refl)
          ∙ ap (λ l. out ++ (bs ++ l))
              (drop-add (length out) (length bs) (out ++ tail)
                ∙ ap (drop (length bs)) (drop-prefix (length out) out tail refl))
          ∙ sym (append_assoc out bs (drop (length bs) tail)))
        i;
  pos = sym (length-append out bs) i;
}

abbrev pub at : List ℕ → ℕ → Descriptor
at content p = record { content = content; pos = p }

abbrev pub slice : ℕ → ℕ → List ℕ → List ℕ
slice p n content = take n (drop p content)

length-slice :
    (p n : ℕ) (content : List ℕ) → p + n ≤ length content → length (slice p n content) ≡ n
length-slice p n content h = omega (arith, length-take n (drop p content), length-drop p content)

-- The bytes of a chunk are there: they are written, and the old file stands behind them.
copy_chunk-written :
    (n p : ℕ) (content out tail buf : List ℕ)
    → p + n ≤ length content
    → copy_chunk n (record { old = at content p; new = written out tail; buf = buf }) ≡ record {
      old = at content (p + n);
      new = written (out ++ slice p n content) (drop n tail);
      buf = overwrite buf (slice p n content);
    }
unfolding copy_chunk
copy_chunk-written n p content out tail buf h =
    let size = length-slice p n content h in
    let first : take n (slice p n content ++ drop (length (slice p n content)) buf)
        ≡ slice p n content =
      take-prefix n (slice p n content) (drop (length (slice p n content)) buf) size in
    rw (first, write_bytes-written (slice p n content) out tail, size) refl

-- The copier after `bytes` bytes from `p` on.
abbrev pub copied : ℕ → ℕ → List ℕ → List ℕ → List ℕ → List ℕ → Copier
copied p bytes content out tail buf = record {
  old = at content (p + bytes);
  new = written (out ++ slice p bytes content) (drop bytes tail);
  buf = buf;
}

copied-zero :
    (p : ℕ) (content out tail buf : List ℕ)
    → record { old = at content p; new = written out tail; buf = buf }
      ≡ copied p 0 content out tail buf
copied-zero p content out tail buf =
    let same : p ≡ p + 0 = omega arith in
    λ i. record {
      old = at content (same i);
      new = written (sym (append-nil out) i) tail;
      buf = buf;
    }

copied-add :
    (p m k : ℕ) (content out tail buf : List ℕ)
    → copied (p + m) k content (out ++ slice p m content) (drop m tail) buf
      ≡ copied p (m + k) content out tail buf
copied-add p m k content out tail buf =
    let same : p + m + k ≡ p + (m + k) = omega arith in
    let bytes : out ++ slice p m content ++ slice (p + m) k content
        ≡ out ++ slice p (m + k) content =
      append_assoc out (slice p m content) (slice (p + m) k content)
      ∙ ap (λ l. out ++ (slice p m content ++ take k l)) (drop-add p m content)
      ∙ ap (λ l. out ++ l) (sym (take-add m k (drop p content))) in
    λ i. record {
      old = at content (same i);
      new = written (bytes i) (sym (drop-add m k tail) i);
      buf = buf;
    }

abbrev Copied : ℕ → ℕ → List ℕ → List ℕ → List ℕ → Outcome Copier → Type 0
Copied p bytes content out tail run =
    (buf : List ℕ) × (run ≡ ok (copied p bytes content out tail buf))

copy_loop-Copied :
    (fuel bytes p : ℕ) (content out tail buf : List ℕ)
    → bytes < fuel * 1024 + 1
    → 0 < fuel
    → p + bytes ≤ length content
    → Copied p bytes content out tail
        (copy_loop fuel bytes (record { old = at content p; new = written out tail; buf = buf }))
unfolding copy_loop
copy_loop-Copied zero bytes p content out tail buf f some_fuel h = absurd (omega arith)
copy_loop-Copied (suc fuel) bytes p content out tail buf f some_fuel h =
    elim (Bool-cases (ltb 1024 bytes)) [
      | inl full ↦
          let more : 1024 < bytes = ground arith in
          let chunk = copy_chunk-written 1024 p content out tail buf (omega arith) in
          let (buf', run) =
            copy_loop-Copied fuel (bytes - 1024) (p + 1024) content (out ++ slice p 1024 content)
              (drop 1024 tail) (overwrite buf (slice p 1024 content)) (omega arith) (omega arith)
              (omega arith) in
          let total : 1024 + (bytes - 1024) ≡ bytes = omega arith in
          (
            buf',
            rw (full, copy_loop, chunk)
                (run
                  ∙ ap ok (copied-add p 1024 (bytes - 1024) content out tail buf')
                  ∙ ap (λ b. ok (copied p b content out tail buf')) total),
          )
      | inr small ↦ elim (Bool-cases (ltb 0 bytes)) [
        | inl some_left ↦ (
          overwrite buf (slice p bytes content),
          rw (small, copy_loop, some_left, copy_chunk-written bytes p content out tail buf h),
        )
        | inr none_left ↦
            let nothing : 0 ≡ bytes = ground arith in
            (
              buf,
              rw (small, copy_loop, none_left)
                  (ap ok (copied-zero p content out tail buf)
                    ∙ ap (λ b. ok (copied p b content out tail buf)) nothing),
            )
      ]
    ]

-- Where the bytes are in the archive, `copy_file` comes to an end and appends exactly them to what
-- has been written.
pub copy_file-slice :
    (bytes pos : ℕ) (content out tail buf : List ℕ) (q : ℕ)
    → pos + bytes ≤ length content
    → length content < 2 ^ 63
    → (buf' : List ℕ) × (copy_file bytes pos
          (record { old = at content q; new = written out tail; buf = buf })
        ≡ ok (copied pos bytes content out tail buf'))
unfolding copy_file
copy_file-slice bytes pos content out tail buf q h fits =
    let reachable : ltb pos (2 ^ 63) ≡ true = ground arith in
    rw reachable (
      copy_loop-Copied (bytes / 1024 + 1) bytes pos content out tail buf (omega arith) (omega arith)
        h)
