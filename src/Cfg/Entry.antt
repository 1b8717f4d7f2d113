-- ===== src/Cfg/Entry.antt =====
-- handler.hpp: what stands in a page, as a list of keys and values.
use emlabcpp.Prelude.{
  ℕ, ◌+◌, ◌-◌, ◌*◌, ◌/◌, ◌≤◌, ◌<◌, ◌≡◌, refl, arith, false, List, [], ◌∷◌, ◌++◌, length,
  length-append, All, leb, le→leb, if◌then◌else◌, ◌⊎◌,
}
use emlabcpp.Protocol.Serializer.{Endian}
use emlabcpp.Protocol.Serializer.Bytes.{IsByte, bytes, number, length-bytes}
use emlabcpp.Cfg.Cell.{sin_bit_mask, word}
use emlabcpp.Cfg.Cell.RoundTrip.{padded}

pub record Entry : Type 0 where
  pub key : ℕ
  pub value : List ℕ

-- The bytes that are written for an entry: a cell, behind the value when that has more than four
-- bytes.
abbrev pub entry_bytes : Endian → Entry → List ℕ
entry_bytes e r =
    if leb (length r.value) 4
    then bytes e 8 ((r.key + sin_bit_mask) * word + number e (padded r.value))
    else r.value ++ bytes e 8 (r.key * word + (length r.value + 7) / 8)

-- the bytes that `on_kval` is given
abbrev pub given : Entry → List ℕ
given r = if leb (length r.value) 4 then padded r.value else r.value

-- A key of 31 bits, and bytes that fill a word or whole cells, for which a buffer has room.
pub record IsEntry (room : ℕ) (r : Entry) : Type 0 where
  pub key_fits : r.key < sin_bit_mask
  pub bytes_fit : All IsByte r.value
  pub value_fits :
      ((0 < length r.value) × (length r.value ≤ 4))
      ⊎ ((k : ℕ) × (length r.value ≡ k * 8)
          × (4 < length r.value)
          × (length r.value < word - 8)
          × (length r.value ≤ room))

-- the bytes of a list of entries, of which the last one stands first in the list
unfoldable pub log : Endian → List Entry → List ℕ
log e [] = []
log e (r ∷ rs) = log e rs ++ entry_bytes e r

pub single_bytes :
    (e : Endian) (r : Entry)
    → length r.value ≤ 4
    → entry_bytes e r ≡ bytes e 8 ((r.key + sin_bit_mask) * word + number e (padded r.value))
single_bytes e r short = rw (le→leb (length r.value) 4 short) refl

pub multi_bytes :
    (e : Endian) (r : Entry)
    → 4 < length r.value
    → entry_bytes e r ≡ r.value ++ bytes e 8 (r.key * word + (length r.value + 7) / 8)
multi_bytes e r long = let test : leb (length r.value) 4 ≡ false = ground arith in rw test refl

pub entry_bytes_long : (e : Endian) (r : Entry) → 8 ≤ length (entry_bytes e r)
entry_bytes_long e r = ground (
  arith,
  length-bytes e 8 ((r.key + sin_bit_mask) * word + number e (padded r.value)),
  length-bytes e 8 (r.key * word + (length r.value + 7) / 8),
  length-append r.value (bytes e 8 (r.key * word + (length r.value + 7) / 8)),
)
