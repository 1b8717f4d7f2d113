-- ===== src/Cfg/Cell.antt =====
-- handler.hpp: a cell of the memory, and the search for free cells. A word in memory has the byte
-- order of the machine, `e`.
pub mod RoundTrip
use emlabcpp.Prelude.{
  ℕ, zero, suc, ◌+◌, ◌-◌, ◌*◌, ◌/◌, ◌%◌, Bool, true, false, not, ◌&&◌, Option, none, some, List, [],
  ◌∷◌, ◌++◌, length, take, drop, replicate, ltb, leb, ◌==◌, if◌then◌else◌,
}
use emlabcpp.Protocol.Serializer.{Endian}
use emlabcpp.Protocol.Serializer.Bytes.{bytes, number}
use emlabcpp.Cfg.{cell_size, hcell_size}

-- `sin_bit_mask` is 2 ^ 31, and `key_mask` the 31 bits below it.
abbrev pub sin_bit_mask : ℕ
sin_bit_mask = 2147483648

-- 2 ^ 32, the range of `uint32_t`
abbrev pub word : ℕ
word = 4294967296

pub data CellKind : Type 0 where
  single multi : CellKind

unfoldable pub closest_multiple_of : ℕ → ℕ → ℕ
closest_multiple_of x r = r * ((x + r + (word - 1)) % word / r) % word

-- The cell that is written is the second part: `memcpy` of eight bytes over `dest`.
unfoldable pub ser_cell : Endian → ℕ → List ℕ → Option (CellKind × List ℕ)
unfolding closest_multiple_of
ser_cell e key value =
    if length value == 0
    then none
    else if ltb sin_bit_mask key
    then none
    else if leb (length value) hcell_size
    then some (
      single,
      bytes e cell_size (
          (key % sin_bit_mask + sin_bit_mask) * word
          + number e (value ++ replicate (hcell_size - length value) 0)),
    )
    else some (
      multi,
      bytes e cell_size
          (key * word + closest_multiple_of (length value % word) cell_size / cell_size),
    )

pub record DeserRes : Type 0 where
  pub is_seq : Bool
  pub key : ℕ
  pub val : ℕ

-- `front & sin_bit_mask` of 32 bits is zero when `front` is less than the mask.
unfoldable pub deser_cell : Endian → List ℕ → Option DeserRes
deser_cell e cell =
    let tmp = number e cell in
    let front = tmp / word % word in
    let r : DeserRes = record {
      is_seq = ltb front sin_bit_mask;
      key = front % sin_bit_mask;
      val = tmp % word;
    } in
    if r.is_seq && (r.val == 0) then none else some r

-- The buffer after the call is the second part, and what the result spans is its value.
unfoldable pub store_kval_impl : Endian → ℕ → List ℕ → ℕ → Option (List ℕ) × List ℕ
unfolding ser_cell
store_kval_impl e key buffer val_end =
    if ltb (length buffer - val_end) cell_size
    then (none, buffer)
    else elim (ser_cell e key (take val_end buffer)) [
      | none ↦ (none, buffer)
      | some (multi, cell) ↦ (
        some (take val_end buffer ++ cell),
        take val_end buffer ++ (cell ++ drop (val_end + cell_size) buffer),
      )
      | some (single, cell) ↦
          (some cell, take val_end buffer ++ (cell ++ drop (val_end + cell_size) buffer))
    ]

unfoldable pub is_free_cell : List ℕ → Bool
is_free_cell [] = true
is_free_cell (x ∷ cell) = (x == 0) && is_free_cell cell
