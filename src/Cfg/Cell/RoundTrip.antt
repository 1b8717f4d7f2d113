-- ===== src/Cfg/Cell/RoundTrip.antt =====
-- handler.hpp: `deser_cell` on what `ser_cell` wrote.
use emlabcpp.Prelude.{
  ℕ, ◌+◌, ◌-◌, ◌*◌, ◌/◌, ◌%◌, ◌^◌, ◌≤◌, ◌<◌, ◌≡◌, refl, arith, true, false, some, List, ◌++◌,
  length, length-append, length-replicate, replicate, All, All-append, All-replicate, ltb, ◌==◌,
  subst,
}
use native.Mathlib.Nat.{mod-eq_of_lt}
use emlabcpp.Protocol.Serializer.{Endian}
use emlabcpp.Protocol.Serializer.Bytes.{IsByte, bytes, number}
use emlabcpp.Protocol.Serializer.RoundTrip.{number-bytes, number-lt}
use emlabcpp.Cfg.Cell.{sin_bit_mask, word, single, multi, closest_multiple_of, ser_cell, deser_cell}

-- a value of at most four bytes in a word
abbrev pub padded : List ℕ → List ℕ
padded value = value ++ replicate (4 - length value) 0

pub length-padded : (value : List ℕ) → length value ≤ 4 → length (padded value) ≡ 4
length-padded value h = omega (
  arith,
  length-append value (replicate (4 - length value) 0),
  length-replicate {A = ℕ} (4 - length value) 0,
)

pub padded-IsByte : (value : List ℕ) → All IsByte value → All IsByte (padded value)
padded-IsByte value h =
    All-append IsByte value (replicate (4 - length value) 0) h
      (All-replicate IsByte (4 - length value) 0 (omega arith))

pub word_lt :
    (e : Endian) (value : List ℕ)
    → length value ≤ 4
    → All IsByte value
    → number e (padded value) < word
word_lt e value h bs =
    subst (λ (w : ℕ). number e (padded value) < 256 ^ w) (length-padded value h)
      (number-lt e (padded value) (padded-IsByte value bs))

-- what `deser_cell` gives for the word of a cell
deser_word :
    (e : Endian) (front val : ℕ)
    → front < word
    → val < word
    → number e (bytes e 8 (front * word + val)) ≡ front * word + val
deser_word e front val hf hv = number-bytes e 8 (front * word + val) (omega arith)

pub ser_cell-single :
    (e : Endian) (key : ℕ) (value : List ℕ)
    → key < sin_bit_mask
    → 0 < length value
    → length value ≤ 4
    → ser_cell e key value
      ≡ some (single, bytes e 8 ((key + sin_bit_mask) * word + number e (padded value)))
unfolding ser_cell
ser_cell-single e key value small some_byte short =
    ground (arith, mod-eq_of_lt {n = key} {m = sin_bit_mask} small)

pub deser_cell-single :
    (e : Endian) (key val : ℕ)
    → key < sin_bit_mask
    → val < word
    → deser_cell e (bytes e 8 ((key + sin_bit_mask) * word + val))
      ≡ some (record { is_seq = false; key = key; val = val })
unfolding deser_cell
deser_cell-single e key val small fits =
    let word_at = deser_word e (key + sin_bit_mask) val (omega arith) fits in
    let n = (key + sin_bit_mask) * word + val in
    let front : n / word % word ≡ key + sin_bit_mask = omega arith in
    let low : n % word ≡ val = omega arith in
    let plain : ltb (key + sin_bit_mask) sin_bit_mask ≡ false = ground arith in
    let same : (key + sin_bit_mask) % sin_bit_mask ≡ key = omega arith in
    rw (word_at, front, low, plain, same) refl

-- the number of cells of a value of more than four bytes
pub closest_multiple_of-cells : (x : ℕ) → x < word - 8 → closest_multiple_of x 8 / 8 ≡ (x + 7) / 8
unfolding closest_multiple_of
closest_multiple_of-cells x h =
    let up : (x + 8 + (word - 1)) % word ≡ x + 7 = omega arith in rw up (omega arith)

pub ser_cell-multi :
    (e : Endian) (key : ℕ) (value : List ℕ)
    → key < sin_bit_mask
    → 4 < length value
    → length value < word - 8
    → ser_cell e key value ≡ some (multi, bytes e 8 (key * word + (length value + 7) / 8))
unfolding ser_cell
ser_cell-multi e key value small long few = ground (
  arith,
  closest_multiple_of-cells (length value) few,
  mod-eq_of_lt {n = length value} {m = word} (omega arith),
)

pub deser_cell-multi :
    (e : Endian) (key val : ℕ)
    → key < sin_bit_mask
    → val < word
    → 0 < val
    → deser_cell e (bytes e 8 (key * word + val))
      ≡ some (record { is_seq = true; key = key; val = val })
unfolding deser_cell
deser_cell-multi e key val small fits some_cell =
    let word_at = deser_word e key val (omega arith) fits in
    let n = key * word + val in
    let front : n / word % word ≡ key = omega arith in
    let low : n % word ≡ val = omega arith in
    let plain : ltb key sin_bit_mask ≡ true = ground arith in
    let same : key % sin_bit_mask ≡ key = omega arith in
    let used : (val == 0) ≡ false = ground arith in rw (word_at, front, low, plain, same, used) refl
