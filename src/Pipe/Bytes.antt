-- ===== src/Pipe/Bytes.antt =====
-- pipe.c, write_fifo.c and read_fifo.c: the message, and what `write` and `read` do with a buffer.
use os_tasks.Base.{
  ℕ, zero, suc, ltb, Bool, true, false, List, [], ◌∷◌, ◌++◌, length, take, drop, Option, none, some,
  digits, Buffer, padded,
}

-- `BUFSIZE`
abbrev pub buf_size : ℕ
buf_size = 1024

-- "parent pid is %d, " and "cur time is: ", of what `getpid` and `ctime` give.
abbrev pub message : ℕ → List ℕ → List ℕ
message pid time =
    (b'p' ∷ b'a' ∷ b'r' ∷ b'e' ∷ b'n' ∷ b't' ∷ b' ' ∷ b'p' ∷ b'i' ∷ b'd' ∷ b' ' ∷ b'i' ∷ b's' ∷ b' '
      ∷ [])
    ++ digits pid
    ++ b',' ∷ b' ' ∷ b'c' ∷ b'u' ∷ b'r' ∷ b' ' ∷ b't' ∷ b'i' ∷ b'm' ∷ b'e' ∷ b' ' ∷ b'i' ∷ b's'
      ∷ b':' ∷ b' ' ∷ time

-- What `write` takes of a buffer.
unfoldable pub first_bytes : ℕ → Buffer → List ℕ
first_bytes zero buf = []
first_bytes (suc n) buf = buf 0 ∷ first_bytes n (λ i. buf (suc i))

-- The buffer into which `read` has stored bytes.
unfoldable pub store_bytes : List ℕ → Buffer → Buffer
store_bytes [] buf i = buf i
store_bytes (c ∷ s) buf zero = c
store_bytes (c ∷ s) buf (suc i) = store_bytes s (λ j. buf (suc j)) i

abbrev pub written : ℕ → List ℕ → List ℕ
written pid time = first_bytes buf_size (padded (message pid time))

-- `read` gives what is there and leaves the rest; if nothing is there, it waits while somebody can write.
unfoldable pub read_bytes : Bool → List ℕ → Option (List ℕ × List ℕ)
read_bytes writable bytes = elim (ltb 0 (length bytes)) [
  | true ↦ some (take buf_size bytes, drop buf_size bytes)
  | false ↦ elim writable [ true ↦ none | false ↦ some ([], []) ]
]
