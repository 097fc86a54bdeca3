-- ===== src/Shmem/Printed.antt =====
-- shmem/writer.c and shmem/reader.c: the reader never prints past the end of its buffer.
use os_tasks.Base.{
  Buffer, string_from, padded_beyond, ℕ, zero, suc, ◌+◌, ◌^◌, ◌<◌, ◌≤◌, ◌==◌, true, List, [], ◌∷◌,
  length, Option, some, Bool-cases, inl, inr, ◌≡◌, refl, ap, subst, ◌∙◌, arith,
}
use mathlib.Core.Bool.{false≢true}
use os_tasks.Shmem.State.{
  buf_size, message, set_byte, mark, Marks, WriterPc, composing, writing, ReaderPc, reading,
  printing, System,
}
use os_tasks.Shmem.Message.{message-bounds}
use os_tasks.Shmem.Moves.{
  Step, compose, write_byte, written, read_byte, was_read, print, Steps, here, later, initial,
}

set_byte-last :
    (i c : ℕ) (buf : Buffer) → (i ≡ 511 → c ≡ 0) → buf 511 ≡ 0 → set_byte i c buf 511 ≡ 0
set_byte-last i c buf h h' = elim (Bool-cases (511 == i)) [
  | inl e ↦ rw (e, set_byte) (h (ground arith))
  | inr e ↦ rw (e, set_byte) h'
]

-- A 0 in the last place stops the printing.
string_from-stops :
    (left i : ℕ) (buf : Buffer)
    → i + left ≡ 511
    → buf 511 ≡ 0
    → (s : List ℕ) × (string_from (suc left) buf i ≡ some s) × (length s ≤ left)
unfolding string_from
string_from-stops zero i buf e stop =
    let here : (buf i == 0) ≡ true = ap (λ j. buf j == 0) (omega arith) ∙ ap (λ c. c == 0) stop in
    ([], rw (here, string_from) refl, omega arith)
string_from-stops (suc left) i buf e stop = elim (Bool-cases (buf i == 0)) [
  | inl zero_byte ↦ ([], rw (zero_byte, string_from) refl, omega arith)
  | inr byte ↦
      let (s, run, size) = string_from-stops left (i + 1) buf (omega arith) stop in
      (buf i ∷ s, rw (byte, string_from, run) refl, omega arith)
]

abbrev WriterAgrees : Buffer → WriterPc → Type 0
WriterAgrees buf composing = Unit
WriterAgrees buf (writing marks) = buf 511 ≡ 0

-- Once its last byte is copied, the buffer of the reader has the 0.
abbrev ReaderAgrees : Buffer → ReaderPc → Type 0
ReaderAgrees buf (reading marks) = marks 511 ≡ true → buf 511 ≡ 0
ReaderAgrees buf printing = buf 511 ≡ 0

-- Every text that was printed ended before the end of the buffer.
abbrev pub AllEnded : List (Option (List ℕ)) → Type 0
AllEnded [] = Unit
AllEnded (o ∷ log) = ((s : List ℕ) × (o ≡ some s) × (length s < buf_size)) × AllEnded log

record Inv (s : System) : Type 0 where
  last : s.segment 511 ≡ 0
  writer_agrees : WriterAgrees s.writer_buf s.writer
  reader_agrees : ReaderAgrees s.reader_buf s.reader
  ended : AllEnded s.log

module _ (pid : ℕ) (ctime : ℕ → List ℕ) (pid_h : pid < 2 ^ 31)
    (time_h : (t : ℕ) → length (ctime t) ≤ 25) where
  Step-Inv : {s t : System} → Step pid ctime s t → Inv s → Inv t
  Step-Inv {s} (compose time e) v = record {
    last = v.last;
    writer_agrees =
        padded_beyond (message pid (ctime time)) 511
          (let fits = message-bounds pid (ctime time) pid_h (time_h time) in omega (arith, fits));
    reader_agrees = v.reader_agrees;
    ended = v.ended;
  }
  Step-Inv {s} (write_byte i {marks} h e) v =
      let stop = subst (WriterAgrees s.writer_buf) e v.writer_agrees in
      record {
        last = set_byte-last i (s.writer_buf i) s.segment (λ e'. ap s.writer_buf e' ∙ stop) v.last;
        writer_agrees = stop;
        reader_agrees = v.reader_agrees;
        ended = v.ended;
      }
  Step-Inv {s} (written all e) v = record {
    last = v.last;
    writer_agrees = tt;
    reader_agrees = v.reader_agrees;
    ended = v.ended;
  }
  Step-Inv {s} (read_byte i {marks} h e) v =
      let agrees = subst (ReaderAgrees s.reader_buf) e v.reader_agrees in
      record {
        last = v.last;
        writer_agrees = v.writer_agrees;
        reader_agrees =
            read_agrees i marks s.reader_buf (s.segment i) (λ e'. ap s.segment e' ∙ v.last) agrees;
        ended = v.ended;
      }
    where
      read_agrees :
          (i : ℕ) (marks : Marks) (buf : Buffer) (c : ℕ)
          → (i ≡ 511 → c ≡ 0)
          → (marks 511 ≡ true → buf 511 ≡ 0)
          → mark i marks 511 ≡ true
          → set_byte i c buf 511 ≡ 0
      read_agrees i marks buf c h k m = elim (Bool-cases (511 == i)) [
        | inl e ↦ rw (e, set_byte) (h (ground arith))
        | inr e ↦ rw (e, set_byte) (k (rw (e, mark) at m))
      ]
  Step-Inv {s} (was_read all e) v = record {
    last = v.last;
    writer_agrees = v.writer_agrees;
    reader_agrees = (subst (ReaderAgrees s.reader_buf) e v.reader_agrees) (all 511 refl);
    ended = v.ended;
  }
  Step-Inv {s} (print e) v =
      let stop = subst (ReaderAgrees s.reader_buf) e v.reader_agrees in
      let (text, run, size) = string_from-stops 511 0 s.reader_buf refl stop in
      record {
        last = v.last;
        writer_agrees = v.writer_agrees;
        reader_agrees = λ m. absurd (false≢true m);
        ended = ((text, run, omega arith), v.ended);
      }

  Steps-Inv : {s t : System} → Steps pid ctime s t → Inv s → Inv t
  Steps-Inv here v = v
  Steps-Inv (later r st) v = Step-Inv st (Steps-Inv r v)

  -- In whatever order the two programs copy their bytes, and whatever their buffers hold at first, every
  -- text that the reader prints ends within its buffer. The number of the process has 31 bits, and
  -- `ctime` gives at most 25 bytes.
  pub Steps-AllEnded :
      (writer_rest reader_rest : Buffer) (t : System)
      → Steps pid ctime (initial writer_rest reader_rest) t
      → AllEnded t.log
  Steps-AllEnded writer_rest reader_rest t r =
      (Steps-Inv r (record {
        last = refl;
        writer_agrees = tt;
        reader_agrees = λ m. absurd (false≢true m);
        ended = tt;
      })).ended
