-- ===== src/Shmem/State.antt =====
-- shmem/shmem.h and `write_string_in_shm` of shmem/writer.c (lines 27 to 37): the buffers of the two
-- programs and the message.
use os_tasks.Base.{
  ℕ, ◌==◌, ltb, Bool, true, false, List, [], ◌∷◌, ◌++◌, Option, digits, Buffer, ◌≡◌,
}

-- `BUFSIZE`
abbrev pub buf_size : ℕ
buf_size = 512

-- "hi from writer! writer pid is %d, " and "cur time is: ", of what `getpid` and `ctime` give.
abbrev pub message : ℕ → List ℕ → List ℕ
message pid time =
    (b'h' ∷ b'i' ∷ b' ' ∷ b'f' ∷ b'r' ∷ b'o' ∷ b'm' ∷ b' ' ∷ b'w' ∷ b'r' ∷ b'i' ∷ b't' ∷ b'e' ∷ b'r'
      ∷ b'!' ∷ b' ' ∷ [])
    ++ (b'w' ∷ b'r' ∷ b'i' ∷ b't' ∷ b'e' ∷ b'r' ∷ b' ' ∷ b'p' ∷ b'i' ∷ b'd' ∷ b' ' ∷ b'i' ∷ b's'
        ∷ b' ' ∷ [])
    ++ digits pid
    ++ b',' ∷ b' ' ∷ b'c' ∷ b'u' ∷ b'r' ∷ b' ' ∷ b't' ∷ b'i' ∷ b'm' ∷ b'e' ∷ b' ' ∷ b'i' ∷ b's'
      ∷ b':' ∷ b' ' ∷ time

-- A buffer with one byte set.
abbrev pub set_byte : ℕ → ℕ → Buffer → Buffer
set_byte i c buf j = elim (j == i) [ true ↦ c | false ↦ buf j ]

-- Which bytes a `memcpy` has copied: it may take them in any order.
abbrev pub Marks : Type 0
Marks = ℕ → Bool

abbrev pub no_marks : Marks
no_marks i = false

abbrev pub mark : ℕ → Marks → Marks
mark i marks j = elim (j == i) [ true ↦ true | false ↦ marks j ]

abbrev pub AllMarked : Marks → Type 0
AllMarked marks = (i : ℕ) → ltb i buf_size ≡ true → marks i ≡ true

-- The writer at the top of its loop, or within `memcpy`.
pub data WriterPc : Type 0 where
  composing : WriterPc
  writing : Marks → WriterPc

-- The reader within `memcpy`, or in front of the second `printf`.
pub data ReaderPc : Type 0 where
  reading : Marks → ReaderPc
  printing : ReaderPc

-- The segment, the two buffers `wrbuf`, and what the reader has printed, the last first.
pub record System : Type 0 where
  pub segment : Buffer
  pub writer_buf : Buffer
  pub writer : WriterPc
  pub reader_buf : Buffer
  pub reader : ReaderPc
  pub log : List (Option (List ℕ))
