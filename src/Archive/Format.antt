-- ===== src/Archive/Format.antt =====
-- archive/archiver.c, lines 10 to 60: the packed struct `file_info` and its bytes. The fields are
-- written in the byte order of the machine, which is taken to be little-endian.
use os_tasks.Base.{
  ℕ, zero, suc, ◌+◌, ◌*◌, ◌/◌, ◌%◌, ◌^◌, ◌<◌, ◌==◌, List, [], ◌∷◌, ◌++◌, take, drop, take-prefix,
  drop-prefix, drop-add, length, length-append, ◌≡◌, refl, ap, ◌∙◌, arith, append_assoc,
  if◌then◌else◌,
}
use native.Mathlib.Nat.{pow-suc}

abbrev pub filename_length : ℕ
filename_length = 256

abbrev pub header_ending_size : ℕ
header_ending_size = 4

abbrev pub buffer_size : ℕ
buffer_size = 1024

-- `filename` is the whole array, with what stands behind the 0 that ends the name.
pub record FileInfo : Type 0 where
  pub filename : List ℕ
  pub filesize : ℕ
  pub mask : ℕ
  pub offset : ℕ

-- `sizeof (file_info_t)`
abbrev pub info_size : ℕ
info_size = 280

-- An unsigned integer of `w` bytes.
abbrev pub le_bytes : ℕ → ℕ → List ℕ
le_bytes zero n = []
le_bytes (suc w) n = n % 256 ∷ le_bytes w (n / 256)

abbrev pub of_le_bytes : List ℕ → ℕ
of_le_bytes [] = 0
of_le_bytes (b ∷ bs) = b + 256 * of_le_bytes bs

-- The struct as it lies in memory, and the struct that lies in given bytes.
unfoldable pub to_bytes : FileInfo → List ℕ
to_bytes fi =
    fi.filename ++ (le_bytes 8 fi.filesize ++ (le_bytes 8 fi.mask ++ le_bytes 8 fi.offset))

unfoldable pub of_bytes : List ℕ → FileInfo
of_bytes bs = record {
  filename = take filename_length bs;
  filesize = of_le_bytes (take 8 (drop 256 bs));
  mask = of_le_bytes (take 8 (drop 264 bs));
  offset = of_le_bytes (take 8 (drop 272 bs));
}

-- A C string in an array: the bytes before the first 0.
unfoldable pub c_string : List ℕ → List ℕ
c_string [] = []
c_string (c ∷ s) = if c == 0 then [] else c ∷ c_string s

-- What can stand in the struct.
pub record IsInfo (fi : FileInfo) : Type 0 where
  pub whole : length fi.filename ≡ filename_length
  pub filesize_fits : fi.filesize < 2 ^ 64
  pub mask_fits : fi.mask < 2 ^ 64
  pub offset_fits : fi.offset < 2 ^ 64

pub length-le_bytes : (w n : ℕ) → length (le_bytes w n) ≡ w
length-le_bytes zero n = refl
length-le_bytes (suc w) n = ap suc (length-le_bytes w (n / 256))

of_le_bytes-le_bytes : (w n : ℕ) → n < 256 ^ w → of_le_bytes (le_bytes w n) ≡ n
of_le_bytes-le_bytes zero n h = omega arith
of_le_bytes-le_bytes (suc w) n h =
    omega (arith, of_le_bytes-le_bytes w (n / 256) (omega (arith, pow-suc 256 w)))

pub length-to_bytes : (fi : FileInfo) → IsInfo fi → length (to_bytes fi) ≡ info_size
unfolding to_bytes
length-to_bytes fi h = omega (arith, length-append fi.filename _, h.whole)

of_word : (n : ℕ) (rest : List ℕ) → n < 2 ^ 64 → of_le_bytes (take 8 (le_bytes 8 n ++ rest)) ≡ n
of_word n rest h =
    ap of_le_bytes (take-prefix 8 (le_bytes 8 n) rest (length-le_bytes 8 n))
    ∙ of_le_bytes-le_bytes 8 n h

-- The bytes behind a word.
past_word :
    (k : ℕ) (bs : List ℕ) (n : ℕ) (rest : List ℕ)
    → drop k bs ≡ le_bytes 8 n ++ rest
    → drop (k + 8) bs ≡ rest
past_word k bs n rest e =
    drop-add k 8 bs ∙ ap (drop 8) e ∙ drop-prefix 8 (le_bytes 8 n) rest (length-le_bytes 8 n)

-- Reading a struct from its own bytes, with any bytes behind them, gives it back.
pub of_bytes-to_bytes :
    (fi : FileInfo) (rest : List ℕ) → IsInfo fi → of_bytes (to_bytes fi ++ rest) ≡ fi
unfolding of_bytes to_bytes
of_bytes-to_bytes fi rest h =
    let words = le_bytes 8 fi.filesize ++ (le_bytes 8 fi.mask ++ (le_bytes 8 fi.offset ++ rest)) in
    let bs = to_bytes fi ++ rest in
    let split : bs ≡ fi.filename ++ words = simp append_assoc in
    let size : drop 256 bs ≡ words =
      ap (drop 256) split ∙ drop-prefix 256 fi.filename words h.whole in
    let mask : drop 264 bs ≡ le_bytes 8 fi.mask ++ (le_bytes 8 fi.offset ++ rest) =
      past_word 256 bs fi.filesize _ size in
    let offset : drop 272 bs ≡ le_bytes 8 fi.offset ++ rest = past_word 264 bs fi.mask _ mask in
    λ i. record {
      filename = (ap (take 256) split ∙ take-prefix 256 fi.filename words h.whole) i;
      filesize =
          (ap (λ l. of_le_bytes (take 8 l)) size
              ∙ of_word fi.filesize (le_bytes 8 fi.mask ++ (le_bytes 8 fi.offset ++ rest))
                  h.filesize_fits)
            i;
      mask =
          (ap (λ l. of_le_bytes (take 8 l)) mask
              ∙ of_word fi.mask (le_bytes 8 fi.offset ++ rest) h.mask_fits)
            i;
      offset = (ap (λ l. of_le_bytes (take 8 l)) offset ∙ of_word fi.offset rest h.offset_fits) i;
    }
