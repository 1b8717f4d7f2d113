-- ===== src/Cobs/Encode/Code.antt =====
-- cobs.hpp: what the encoding looks like, whatever the source.
use emlabcpp.Prelude.{
  ℕ, zero, suc, ◌+◌, ◌/◌, ◌≤◌, ◌<◌, arith, List, [], ◌∷◌, ◌++◌, length, length-append, inl, inr,
  All, All-append,
}
use emlabcpp.Cobs.Encode.{
  stuffed, cobs, stuffed_nil, stuffed_zero, stuffed_open, stuffed_full, block_cases,
}

-- a byte that is not zero
abbrev pub IsMark : ℕ → Type 0
IsMark b = (0 < b) × (b < 256)

stuffed-IsMark :
    (source block : List ℕ)
    → All (λ b. b < 256) source
    → All IsMark block
    → length block < 254
    → All IsMark (stuffed block source)
stuffed-IsMark [] block bytes marks short =
    rw (stuffed_nil block) ((omega arith, omega arith), marks)
stuffed-IsMark (zero ∷ source) block bytes marks short = rw (stuffed_zero source block) (
  (omega arith, omega arith),
  All-append IsMark block (stuffed [] source) marks
      (stuffed-IsMark source [] bytes.1 tt (omega arith)),
)
stuffed-IsMark (suc b ∷ source) block bytes marks short =
    let longer : All IsMark (block ++ (suc b ∷ [])) =
      All-append IsMark block (suc b ∷ []) marks ((omega arith, bytes.0), tt) in
    elim (block_cases block short) [
      | inl full ↦ rw (stuffed_full b source block full) (
        (omega arith, omega arith),
        All-append IsMark (block ++ (suc b ∷ [])) (stuffed [] source) longer
            (stuffed-IsMark source [] bytes.1 tt (omega arith)),
      )
      | inr open' ↦ rw (stuffed_open b source block open') (
          stuffed-IsMark source (block ++ (suc b ∷ [])) bytes.1 longer
            (omega (arith, open', length-append block (suc b ∷ []))))
    ]

-- The encoding of bytes has no zero.
pub cobs-IsMark : (source : List ℕ) → All (λ b. b < 256) source → All IsMark (cobs source)
cobs-IsMark source bytes = stuffed-IsMark source [] bytes tt (omega arith)

stuffed_size :
    (source block : List ℕ)
    → length block < 254
    → length (stuffed block source)
      ≤ 1 + (length block + length source) + (length block + length source) / 254
stuffed_size [] block short = rw (stuffed_nil block) (omega arith)
stuffed_size (zero ∷ source) block short =
    rw (stuffed_zero source block)
      (omega (arith, stuffed_size source [] (omega arith), length-append block (stuffed [] source)))
stuffed_size (suc b ∷ source) block short =
    let wide = length-append block (suc b ∷ []) in
    elim (block_cases block short) [
      | inl full ↦ rw (stuffed_full b source block full) (
          omega (
            arith,
            full,
            wide,
            stuffed_size source [] (omega arith),
            length-append (block ++ (suc b ∷ [])) (stuffed [] source),
          ))
      | inr open' ↦ rw (stuffed_open b source block open') (
          omega
            (arith, wide, stuffed_size source (block ++ (suc b ∷ [])) (omega (arith, open', wide))))
    ]

-- The encoding has one byte and one for each 254 bytes of the source more than it, at most.
pub length-cobs : (source : List ℕ) → length (cobs source) ≤ 1 + length source + length source / 254
length-cobs source = omega (arith, stuffed_size source [] (omega arith))

stuffed_bytes :
    (source block : List ℕ)
    → length block < 254
    → 1 + (length block + length source) ≤ length (stuffed block source)
stuffed_bytes [] block short = rw (stuffed_nil block) (omega arith)
stuffed_bytes (zero ∷ source) block short =
    rw (stuffed_zero source block) (
      omega (arith, stuffed_bytes source [] (omega arith), length-append block (stuffed [] source)))
stuffed_bytes (suc b ∷ source) block short =
    let wide = length-append block (suc b ∷ []) in
    elim (block_cases block short) [
      | inl full ↦ rw (stuffed_full b source block full) (
          omega (
            arith,
            full,
            wide,
            stuffed_bytes source [] (omega arith),
            length-append (block ++ (suc b ∷ [])) (stuffed [] source),
          ))
      | inr few ↦ rw (stuffed_open b source block few) (
          omega
            (arith, wide, stuffed_bytes source (block ++ (suc b ∷ [])) (omega (arith, few, wide))))
    ]

pub cobs-length : (source : List ℕ) → 1 + length source ≤ length (cobs source)
cobs-length source = omega (arith, stuffed_bytes source [] (omega arith))
