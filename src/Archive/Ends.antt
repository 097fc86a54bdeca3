-- ===== src/Archive/Ends.antt =====
-- archive/archiver.c: `read_header` comes to an end on any bytes, those of no archive too.
use os_tasks.Base.{
  ℕ, zero, suc, ◌+◌, ◌-◌, ◌<◌, ◌≤◌, Bool, false, ◌==◌, ltb, List, length, length-take, length-drop,
  take, drop, Outcome, ok, failure, ◌⊎◌, ◌≡◌, ◌≢◌, refl, arith, Bool-cases, inl, inr,
}
use os_tasks.Archive.Format.{FileInfo, of_le_bytes}
use os_tasks.Archive.Descriptor.{Descriptor, read_bytes}
use os_tasks.Archive.Header.{
  FiList, Reader, read_mark, unread_mark, read_info, read_header_loop, read_header,
}

abbrev left : Reader → ℕ
left s = length s.fd.content - s.fd.pos

abbrev next : FileInfo → Reader → Reader
next junk s = read_info junk (unread_mark (read_mark s))

-- A round that is not at the end of the file leaves fewer bytes to read.
round_moves :
    (junk : FileInfo) (s : Reader)
    → (length (read_bytes 4 s.fd) == 0) ≡ false
    → left (next junk s) < left s
unfolding read_info unread_mark read_mark
round_moves junk s more =
    let c = s.fd.content in
    let p = s.fd.pos in
    let q = p + length (take 4 (drop p c)) in
    let some_left : length (take 4 (drop p c)) ≢ 0 = ground arith in
    elim (Bool-cases (ltb q 4)) [
      | inl e ↦
          rw (e, unread_mark)
            (omega (
              arith,
              length-take 4 (drop p c),
              length-drop p c,
              length-take 280 (drop q c),
              length-drop q c,
            ))
      | inr e ↦
          let far : 4 ≤ q = ground arith in
          rw (e, unread_mark)
            (omega (
              arith,
              length-take 4 (drop p c),
              length-drop p c,
              length-take 280 (drop (q - 4) c),
              length-drop (q - 4) c,
            ))
    ]

-- A value, or the exit with failure.
abbrev pub EndsWell {ℓ} : {A : Type ℓ} → Outcome A → Type ℓ
EndsWell {A = A} o = ((a : A) × (o ≡ ok a)) ⊎ (o ≡ failure)

read_header_loop-ends :
    (junk : FileInfo) (fuel : ℕ) (s : Reader)
    → left s < fuel
    → EndsWell (read_header_loop junk fuel s)
unfolding read_header_loop
read_header_loop-ends junk zero s h = absurd (omega arith)
read_header_loop-ends junk (suc fuel) s h = elim (Bool-cases (length (read_bytes 4 s.fd) == 0)) [
  | inl e ↦ elim (Bool-cases s.errno) [
    | inl bad ↦ rw (e, read_header_loop, bad) (inr refl)
    | inr good ↦ rw (e, read_header_loop, good) (inl (_, refl))
  ]
  | inr e ↦ elim (Bool-cases (of_le_bytes (read_mark s).buf == 0)) [
    | inl e' ↦ rw (e, read_header_loop, e') (inl (read_mark s, refl))
    | inr e' ↦
        rw (e, read_header_loop, e')
          (read_header_loop-ends junk fuel (next junk s) (omega (arith, round_moves junk s e)))
  ]
]

-- On any bytes, from any position, `read_header` comes to an end: it makes a list or exits with failure.
pub read_header-ends :
    (junk : FileInfo) (buf : List ℕ) (fd : Descriptor) (errno : Bool) (header : FiList)
    → ((s : Reader) × (read_header junk buf fd errno header ≡ ok s))
      ⊎ (read_header junk buf fd errno header ≡ failure)
unfolding read_header
read_header-ends junk buf fd errno header =
    let start : Reader = record { fd = fd; errno = errno; buf = buf; header = header } in
    elim (read_header_loop-ends junk (length fd.content + 2) start (omega arith)) [
      | inl (s, run) ↦ inl (record s { fd = record fd { pos = 0 } }, rw (run, read_header) refl)
      | inr run ↦ inr (rw (run, read_header) refl)
    ]
