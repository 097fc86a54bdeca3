-- ===== src/Shmem/Message.antt =====
-- shmem/writer.c, `write_string_in_shm`: the message fits into the buffer and is printed whole.
use os_tasks.Base.{
  NoNul-append, ℕ, ◌+◌, ◌^◌, ◌<◌, ◌≤◌, List, [], ◌∷◌, ◌++◌, length, length-append, some, digits,
  NoNul, digits_loop-le, digits_loop-NoNul, Buffer, padded, string_from, string_from-padded, ◌≡◌,
  ap, ◌∙◌, arith,
}
use os_tasks.Shmem.State.{buf_size, message}

-- The message of a process number of 31 bits and of a text of at most 25 bytes, which is what `ctime`
-- gives for a year of four digits, fits into the buffer with its 0.
pub message-bounds :
    (pid : ℕ) (time : List ℕ)
    → pid < 2 ^ 31
    → length time ≤ 25
    → length (message pid time) < buf_size
message-bounds pid time h h' =
    let short : length (digits pid) ≤ 10 = digits_loop-le (pid + 1) pid 9 (omega arith) in
    let rest : List ℕ =
      b',' ∷ b' ' ∷ b'c' ∷ b'u' ∷ b'r' ∷ b' ' ∷ b't' ∷ b'i' ∷ b'm' ∷ b'e' ∷ b' ' ∷ b'i' ∷ b's'
      ∷ b':' ∷ b' ' ∷ time in
    let size : length rest ≡ 15 + length time = omega arith in
    let tail : length (digits pid ++ rest) ≡ length (digits pid) + length rest =
      length-append (digits pid) rest in
    let whole : length (message pid time) ≡ 30 + length (digits pid ++ rest) = omega arith in
    omega (arith, short, tail, whole, size)

message_head-NoNul :
    (r : List ℕ)
    → NoNul r
    → NoNul (
        (b'h' ∷ b'i' ∷ b' ' ∷ b'f' ∷ b'r' ∷ b'o' ∷ b'm' ∷ b' ' ∷ b'w' ∷ b'r' ∷ b'i' ∷ b't' ∷ b'e'
          ∷ b'r' ∷ b'!' ∷ b' ' ∷ [])
        ++ (b'w' ∷ b'r' ∷ b'i' ∷ b't' ∷ b'e' ∷ b'r' ∷ b' ' ∷ b'p' ∷ b'i' ∷ b'd' ∷ b' ' ∷ b'i' ∷ b's'
            ∷ b' ' ∷ [])
        ++ r)
message_head-NoNul r h = ground (arith, h)

message-NoNul : (pid : ℕ) (time : List ℕ) → NoNul time → NoNul (message pid time)
message-NoNul pid time h =
    let rest : List ℕ =
      b',' ∷ b' ' ∷ b'c' ∷ b'u' ∷ b'r' ∷ b' ' ∷ b't' ∷ b'i' ∷ b'm' ∷ b'e' ∷ b' ' ∷ b'i' ∷ b's'
      ∷ b':' ∷ b' ' ∷ time in
    let clean : NoNul rest = ground (arith, h) in
    message_head-NoNul (digits pid ++ rest)
      (NoNul-append (digits pid) rest (digits_loop-NoNul (pid + 1) pid) clean)

-- A message that has been copied whole into the buffer of the reader is printed whole. The number of
-- the process has 31 bits, and `ctime` gives at most 25 bytes, none of them 0.
pub string_from-message :
    (pid : ℕ) (time : List ℕ)
    → pid < 2 ^ 31
    → length time ≤ 25
    → NoNul time
    → (reader_buf : Buffer) → ((i : ℕ) → i < buf_size → reader_buf i ≡ padded (message pid time) i)
    → string_from buf_size reader_buf 0 ≡ some (message pid time)
string_from-message pid time h h' clean reader_buf same =
    string_from-padded (message pid time) buf_size 0 reader_buf (message-NoNul pid time clean)
      (message-bounds pid time h h')
      (λ j le.
        let fits = message-bounds pid time h h' in
        ap reader_buf (omega arith) ∙ same j (omega (arith, fits, le)))
