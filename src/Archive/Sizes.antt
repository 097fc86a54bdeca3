-- ===== src/Archive/Sizes.antt =====
-- archive/archiver.c, `hr_file_size` (lines 668 to 688). A `float` has 24 bits of precision and rounds to
-- the nearest, to an even last bit in the middle; the divisions by 1024 are exact; `%.2f` rounds the exact
-- value in the same way.
use os_tasks.Base.{
  ℕ, zero, suc, ◌+◌, ◌-◌, ◌*◌, ◌/◌, ◌%◌, ◌^◌, ◌<◌, ◌≤◌, true, false, ltb, if◌then◌else◌, List, [],
  ◌∷◌, ◌++◌, length, length-append, take, digits, digits_loop-le, ◌≡◌, refl, ap, ◌∙◌, arith, ◌==◌,
  ◌⊎◌, Bool-cases, inl, inr, ltb→lt, lt→ltb,
}
use native.Mathlib.Nat.{pow-suc, div-add-mod, mod-lt, mul-add, mul-one, mul_comm}

-- `HR_FS_BUFFER_SIZE`
abbrev pub hr_fs_buffer_size : ℕ
hr_fs_buffer_size = 20

-- `n / d`, rounded.
unfoldable pub rounded : ℕ → ℕ → ℕ
rounded n d =
    let q = n / d in
    let r = n % d in if ltb (2 * r) d then q else if ltb d (2 * r) then q + 1 else q + q % 2

-- How many bits of a number do not fit into 24, in as many rounds as a `uint64_t` has bits.
unfoldable pub excess_bits : ℕ → ℕ → ℕ
excess_bits zero s = 0
excess_bits (suc fuel) s = elim (ltb s (2 ^ 24)) [
  | true ↦ 0
  | false ↦ suc (excess_bits fuel (s / 2))
]

-- The conversion of a `uint64_t` to `float`.
unfoldable pub to_float : ℕ → ℕ
to_float s = let unit = 2 ^ excess_bits 64 s in rounded s unit * unit

-- `%.2f` of the float divided by the unit.
abbrev pub hundredths : ℕ → ℕ → ℕ
hundredths s unit = rounded (to_float s * 100) unit

abbrev pub fixed : ℕ → List ℕ
fixed h = digits (h / 100) ++ b'.' ∷ (b'0' + h / 10 % 10) ∷ (b'0' + h % 10) ∷ []

abbrev pub in_unit : ℕ → ℕ → List ℕ → List ℕ
in_unit s unit name = take (hr_fs_buffer_size - 1) (fixed (hundredths s unit) ++ name)

-- "Б", "КБ", "MБ" and "ГБ"
abbrev pub byte_name : List ℕ
byte_name = 208 ∷ 145 ∷ []

abbrev pub kilo_name : List ℕ
kilo_name = 208 ∷ 154 ∷ byte_name

abbrev pub mega_name : List ℕ
mega_name = b'M' ∷ byte_name

abbrev pub giga_name : List ℕ
giga_name = 208 ∷ 147 ∷ byte_name

-- The string in `buf` afterwards.
unfoldable pub hr_file_size : ℕ → List ℕ
hr_file_size s =
    if ltb s 512
    then take (hr_fs_buffer_size - 1) (digits s ++ byte_name)
    else if ltb s (1024 * 512)
    then in_unit s 1024 kilo_name
    else if ltb s (1024 * 1024 * 512)
    then in_unit s (1024 * 1024) mega_name
    else if ltb s (1024 * 1024 * 1024 * 512)
    then in_unit s (1024 * 1024 * 1024) giga_name
    else []

-- Rounding is off by a half at most.
rounded-close :
    (n d : ℕ) → 0 < d → (2 * (d * rounded n d) ≤ 2 * n + d) × (2 * n ≤ 2 * (d * rounded n d) + d)
unfolding rounded
rounded-close n d pos =
    let whole = div-add-mod n d in
    let low = mod-lt n pos in
    elim (Bool-cases (ltb (2 * (n % d)) d)) [
      | inl down ↦
          let small = ltb→lt (2 * (n % d)) d down in
          (rw down (omega (arith, whole)), rw down (omega (arith, whole, small)))
      | inr rest ↦
          let more : d * (n / d + 1) ≡ d * (n / d) + d =
            mul-add d (n / d) 1 ∙ ap (λ x. d * (n / d) + x) (mul-one d) in
          let not_small : d ≤ 2 * (n % d) = ground (arith, rest) in
          elim (Bool-cases (ltb d (2 * (n % d)))) [
            | inl up ↦
                let big = ltb→lt d (2 * (n % d)) up in
                (
                  rw (rest, up) (omega (arith, whole, more, big)),
                  rw (rest, up) (omega (arith, whole, more, low)),
                )
            | inr middle ↦
                let half : 2 * (n % d) ≡ d = ground (arith, middle, not_small) in
                elim (Bool-cases (n / d % 2 == 0)) [
                  | inl even ↦
                      let same : n / d + n / d % 2 ≡ n / d = ground (arith, even) in
                      (
                        rw (rest, middle, same) (omega (arith, whole, half)),
                        rw (rest, middle, same) (omega (arith, whole, half)),
                      )
                  | inr odd ↦
                      let next : n / d + n / d % 2 ≡ n / d + 1 = ground (arith, odd) in
                      (
                        rw (rest, middle, next) (omega (arith, whole, half, more)),
                        rw (rest, middle, next) (omega (arith, whole, half, more)),
                      )
                ]
          ]
    ]

excess_bits-bound :
    (fuel s : ℕ) → (2 ^ excess_bits fuel s ≡ 1) ⊎ (2 ^ excess_bits fuel s * 2 ^ 23 ≤ s)
unfolding excess_bits
excess_bits-bound zero s = inl refl
excess_bits-bound (suc fuel) s = elim (Bool-cases (ltb s (2 ^ 24))) [
  | inl fits ↦ rw (fits, excess_bits) (inl refl)
  | inr long ↦
      let large : 2 ^ 24 ≤ s = ground (arith, long) in
      let twice = pow-suc 2 (excess_bits fuel (s / 2)) in
      rw (long, excess_bits)
        (elim (excess_bits-bound fuel (s / 2)) [
          | inl one ↦ inr (omega (arith, twice, one, large))
          | inr more ↦ inr (omega (arith, twice, more))
        ])
]

two_pow_pos : (k : ℕ) → 0 < 2 ^ k
two_pow_pos zero = omega arith
two_pow_pos (suc k) = omega (arith, pow-suc 2 k, two_pow_pos k)

-- The float is as close as the bits that do not fit allow.
to_float-close :
    (s : ℕ)
    → (unit : ℕ) × (2 * to_float s ≤ 2 * s + unit)
      × (2 * s ≤ 2 * to_float s + unit)
      × ((unit ≡ 1) ⊎ (unit * 2 ^ 23 ≤ s))
unfolding to_float
to_float-close s =
    let unit = 2 ^ excess_bits 64 s in
    let (high, low) = rounded-close s unit (two_pow_pos (excess_bits 64 s)) in
    let turn : rounded s unit * unit ≡ unit * rounded s unit = mul_comm (rounded s unit) unit in
    (unit, omega (arith, high, turn), omega (arith, low, turn), excess_bits-bound 64 s)

-- The units that are printed with two digits behind the point.
pub data IsUnit : ℕ → List ℕ → Type 0 where
  kilo : IsUnit 1024 (208 ∷ 154 ∷ 208 ∷ 145 ∷ [])
  mega : IsUnit (2 ^ 20) (b'M' ∷ 208 ∷ 145 ∷ [])
  giga : IsUnit (2 ^ 30) (208 ∷ 147 ∷ 208 ∷ 145 ∷ [])

-- With sizes from half of a unit to 512 of it, the text fits and is off by less than a hundredth.
hundredths-close :
    (s unit : ℕ) (name : List ℕ)
    → IsUnit unit name
    → unit ≤ 2 * s
    → s < unit * 512
    → (hundredths s unit * unit < 100 * s + unit) × (100 * s < hundredths s unit * unit + unit)
hundredths-close s unit name kilo small large =
    let (extra, high, low, few) = to_float-close s in
    let (up, down) = rounded-close (to_float s * 100) 1024 (omega arith) in
    (omega (arith, high, low, few, up, down), omega (arith, high, low, few, up, down))
hundredths-close s unit name mega small large =
    let (extra, high, low, few) = to_float-close s in
    let (up, down) = rounded-close (to_float s * 100) (2 ^ 20) (omega arith) in
    (omega (arith, high, low, few, up, down), omega (arith, high, low, few, up, down))
hundredths-close s unit name giga small large =
    let (extra, high, low, few) = to_float-close s in
    let (up, down) = rounded-close (to_float s * 100) (2 ^ 30) (omega arith) in
    (omega (arith, high, low, few, up, down), omega (arith, high, low, few, up, down))

pub take-all : (n : ℕ) (l : List ℕ) → length l ≤ n → take n l ≡ l
take-all zero [] h = refl
take-all zero (x ∷ l) h = absurd (omega arith)
take-all (suc n) [] h = refl
take-all (suc n) (x ∷ l) h = ap (λ r. x ∷ r) (take-all n l (omega arith))

length-name : (unit : ℕ) (name : List ℕ) → IsUnit unit name → length name ≤ 4
length-name unit name kilo = omega arith
length-name unit name mega = omega arith
length-name unit name giga = omega arith

-- The text is not cut.
in_unit-whole :
    (h : ℕ) (name : List ℕ)
    → h ≤ 51200
    → length name ≤ 4
    → take 19 (fixed h ++ name) ≡ fixed h ++ name
in_unit-whole h name few short =
    let tail : List ℕ = b'.' ∷ (b'0' + h / 10 % 10) ∷ (b'0' + h % 10) ∷ [] in
    let three : length (digits (h / 100)) ≤ 3 =
      digits_loop-le (h / 100 + 1) (h / 100) 2 (omega arith) in
    take-all 19 (fixed h ++ name) (
      omega
        (arith, three, short, length-append (digits (h / 100)) tail, length-append (fixed h) name))

few_hundredths :
    (h s unit : ℕ) (name : List ℕ)
    → IsUnit unit name
    → h * unit < 100 * s + unit
    → s < unit * 512
    → h ≤ 51200
few_hundredths h s unit name kilo close large = omega arith
few_hundredths h s unit name mega close large = omega arith
few_hundredths h s unit name giga close large = omega arith

-- What a size is shown as: in the unit of which it has between a half and 512, as a number of whole units,
-- the point, two digits and the name of the unit, off by less than a hundredth.
abbrev pub Shows : ℕ → List ℕ → Type 0
Shows s text =
    (h unit : ℕ) × (name : List ℕ) × (text
      ≡ (digits (h / 100) ++ b'.' ∷ (b'0' + h / 10 % 10) ∷ (b'0' + h % 10) ∷ []) ++ name)
    × IsUnit unit name
    × (unit ≤ 2 * s)
    × (s < unit * 512)
    × (h * unit < 100 * s + unit)
    × (100 * s < h * unit + unit)

in_unit-Shows :
    (s unit : ℕ) (name : List ℕ)
    → IsUnit unit name
    → unit ≤ 2 * s
    → s < unit * 512
    → Shows s (in_unit s unit name)
in_unit-Shows s unit name u small large =
    let (below, above) = hundredths-close s unit name u small large in
    let h = hundredths s unit in
    let few = few_hundredths h s unit name u below large in
    (
      h,
      unit,
      name,
      in_unit-whole h name few (length-name unit name u),
      u,
      small,
      large,
      below,
      above,
    )

-- A size from 512 bytes to less than 512 GiB is shown in КБ, MБ or ГБ, in the one of which it has at least
-- a half and less than 512: as a number with two digits behind the point and the unit, whole and
-- without being cut, and the number is off by less than a hundredth of the unit.
pub hr_file_size-close : (s : ℕ) → 512 ≤ s → s < 2 ^ 39 → Shows s (hr_file_size s)
unfolding hr_file_size
hr_file_size-close s low high =
    let not_bytes : ltb s 512 ≡ false = ground (arith, low) in
    let in_giga : ltb s (1024 * 1024 * 1024 * 512) ≡ true = lt→ltb s (2 ^ 39) high in
    elim (Bool-cases (ltb s (1024 * 512))) [
      | inl k ↦
          let large = ltb→lt s (1024 * 512) k in
          rw (not_bytes, k) (in_unit-Shows s 1024 kilo_name kilo (omega arith) large)
      | inr not_k ↦ elim (Bool-cases (ltb s (1024 * 1024 * 512))) [
        | inl m ↦
            let large = ltb→lt s (1024 * 1024 * 512) m in
            let small : 1024 * 512 ≤ s = ground (arith, not_k) in
            rw (not_bytes, not_k, m)
              (in_unit-Shows s (2 ^ 20) mega_name mega (omega (arith, small))
                (omega (arith, large)))
        | inr not_m ↦
            let small : 1024 * 1024 * 512 ≤ s = ground (arith, not_m) in
            rw (not_bytes, not_k, not_m, in_giga)
              (in_unit-Shows s (2 ^ 30) giga_name giga (omega (arith, small)) (omega (arith, high)))
      ]
    ]

-- What a size is shown as in each of the ranges.
pub data SizeText (s : ℕ) (text : List ℕ) : Type 0 where
  in_bytes : s < 512 → text ≡ digits s ++ 208 ∷ 145 ∷ [] → SizeText s text
  in_units : Shows s text → SizeText s text
  nothing : 2 ^ 39 ≤ s → text ≡ [] → SizeText s text

pub hr_file_size-SizeText : (s : ℕ) → SizeText s (hr_file_size s)
unfolding hr_file_size
hr_file_size-SizeText s = elim (Bool-cases (ltb s 512)) [
  | inl b ↦
      let small = ltb→lt s 512 b in
      let few : length (digits s) ≤ 3 = digits_loop-le (s + 1) s 2 (omega arith) in
      in_bytes small (
        rw (b, hr_file_size)
          (take-all 19 (digits s ++ byte_name)
            (omega (arith, few, length-append (digits s) byte_name))))
  | inr not_b ↦
      let low : 512 ≤ s = ground (arith, not_b) in
      elim (Bool-cases (ltb s (2 ^ 39))) [
        | inl g ↦ in_units (hr_file_size-close s low (ltb→lt s (2 ^ 39) g))
        | inr not_g ↦
            let high : 2 ^ 39 ≤ s = ground (arith, not_g) in
            let not_k : ltb s (1024 * 512) ≡ false = ground (arith, high) in
            let not_m : ltb s (1024 * 1024 * 512) ≡ false = ground (arith, high) in
            nothing high (rw (not_b, not_k, not_m, not_g, hr_file_size) refl)
      ]
]
