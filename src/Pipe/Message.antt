-- ===== src/Pipe/Message.antt =====
-- pipe: a message that is written and read is printed whole.
use os_tasks.Base.{
  ℕ, zero, suc, ◌+◌, ◌^◌, ◌<◌, ◌≤◌, Bool, true, ltb, lt→ltb, take, drop, append-nil, take-prefix,
  drop-prefix, List, [], ◌∷◌, ◌++◌, length, length-append, none, some, digits, NoNul, NoNul-append,
  digits_loop-le, digits_loop-NoNul, Buffer, padded, string_from, string_from-padded, ◌≡◌, refl,
  sym, ap, ◌∙◌, arith,
}
use os_tasks.Pipe.Bytes.{buf_size, message, written, first_bytes, store_bytes, read_bytes}

length-first_bytes : (n : ℕ) (buf : Buffer) → length (first_bytes n buf) ≡ n
unfolding first_bytes
length-first_bytes zero buf = refl
length-first_bytes (suc n) buf = omega (arith, length-first_bytes n (λ i. buf (suc i)))

store_bytes-first_bytes :
    (n i : ℕ) (buf old : Buffer) → i < n → store_bytes (first_bytes n buf) old i ≡ buf i
unfolding first_bytes store_bytes
store_bytes-first_bytes zero i buf old h = absurd (omega arith)
store_bytes-first_bytes (suc n) zero buf old h = refl
store_bytes-first_bytes (suc n) (suc i) buf old h =
    store_bytes-first_bytes n i (λ j. buf (suc j)) (λ j. old (suc j)) (omega arith)

message-bounds :
    (pid : ℕ) (time : List ℕ) → pid < 2 ^ 31 → length time ≤ 25 → length (message pid time) < 65
message-bounds pid time h h' =
    let short : length (digits pid) ≤ 10 = digits_loop-le (pid + 1) pid 9 (omega arith) in
    let rest : List ℕ =
      b',' ∷ b' ' ∷ b'c' ∷ b'u' ∷ b'r' ∷ b' ' ∷ b't' ∷ b'i' ∷ b'm' ∷ b'e' ∷ b' ' ∷ b'i' ∷ b's'
      ∷ b':' ∷ b' ' ∷ time in
    let size : length rest ≡ 15 + length time = omega arith in
    let tail : length (digits pid ++ rest) ≡ length (digits pid) + length rest =
      length-append (digits pid) rest in
    let whole : length (message pid time) ≡ 14 + length (digits pid ++ rest) = omega arith in
    omega (arith, short, tail, whole, size)

message-NoNul : (pid : ℕ) (time : List ℕ) → NoNul time → NoNul (message pid time)
message-NoNul pid time h =
    let rest : List ℕ =
      b',' ∷ b' ' ∷ b'c' ∷ b'u' ∷ b'r' ∷ b' ' ∷ b't' ∷ b'i' ∷ b'm' ∷ b'e' ∷ b' ' ∷ b'i' ∷ b's'
      ∷ b':' ∷ b' ' ∷ time in
    let clean : NoNul rest = ground (arith, h) in
    let both : NoNul (digits pid ++ rest) =
      NoNul-append (digits pid) rest (digits_loop-NoNul (pid + 1) pid) clean in
    ground (arith, both)

-- Whatever the buffer held before, and in each of the two sizes.
pub string_from-written :
    (pid : ℕ) (time : List ℕ)
    → pid < 2 ^ 31
    → length time ≤ 25
    → NoNul time
    → (old : Buffer) (size : ℕ) → 1023 < size
    → string_from size (store_bytes (written pid time) old) 0 ≡ some (message pid time)
string_from-written pid time h h' clean old size large =
    let fits = message-bounds pid time h h' in
    string_from-padded (message pid time) size 0 (store_bytes (written pid time) old)
      (message-NoNul pid time clean) (omega (arith, fits))
      (λ j le.
        ap (store_bytes (written pid time) old) (omega arith)
        ∙ store_bytes-first_bytes buf_size j (padded (message pid time)) old
            (omega (arith, fits, le)))

pub read_bytes-written :
    (writable : Bool) (pid : ℕ) (time : List ℕ)
    → read_bytes writable (written pid time) ≡ some (written pid time, [])
unfolding read_bytes
read_bytes-written writable pid time =
    let b = written pid time in
    let size : length b ≡ buf_size = length-first_bytes buf_size (padded (message pid time)) in
    let there : ltb 0 (length b) ≡ true = lt→ltb 0 (length b) (omega (arith, size)) in
    let taken : take buf_size b ≡ b =
      ap (take buf_size) (sym (append-nil b)) ∙ take-prefix buf_size b [] size in
    let left : drop buf_size b ≡ [] =
      ap (drop buf_size) (sym (append-nil b)) ∙ drop-prefix buf_size b [] size in
    rw (there, taken, left, read_bytes) refl

pub read_bytes_waits : read_bytes true [] ≡ none
unfolding read_bytes
read_bytes_waits = refl
