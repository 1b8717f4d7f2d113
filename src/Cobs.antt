-- ===== src/Cobs.antt =====
-- include/emlabcpp/experimental/cobs.hpp: bytes to bytes that are not zero, and back. Pointers into the
-- target are positions in its list, and `std::byte` and `uint8_t` are numbers below 256.
pub mod Encode
pub mod Decode
pub mod Link
mod Tests
use emlabcpp.Prelude.{
  ℕ, zero, suc, ◌+◌, ◌-◌, ◌%◌, Bool, true, false, ◌&&◌, Option, none, some, List, [], ◌∷◌, ◌++◌,
  length, set, take, ◌==◌, if◌then◌else◌,
}

-- `cobs_encoder`. `last_p` is the place of the code of the block that is written.
pub record Encoder : Type 0 where
  pub target : List ℕ
  pub last_p : ℕ
  pub p : ℕ
  pub count : ℕ

unfoldable pub encoder : List ℕ → Encoder
encoder target = record { target = target; last_p = 0; p = 1; count = 1 }

-- the first half of `insert`: the byte, or the code of the block that a zero ends
unfoldable pub put : ℕ → Encoder → Encoder
put b e =
    if b == 0
    then record { target = set e.target e.last_p e.count; last_p = e.p; p = e.p + 1; count = 1 }
    else record {
      target = set e.target e.p b;
      last_p = e.last_p;
      p = e.p + 1;
      count = (e.count + 1) % 256;
    }

-- the second half: a block of 254 bytes ends without a zero
unfoldable pub close_full : Encoder → Encoder
close_full e =
    if e.count == 255
    then record { target = set e.target e.last_p 255; last_p = e.p; p = e.p + 1; count = 1 }
    else e

unfoldable pub insert : ℕ → Encoder → Bool × Encoder
unfolding put close_full
insert b e =
    let e1 = put b e in
    let e2 = close_full e1 in
    if e1.p == length e1.target
    then (false, e1)
    else (if e2.p == length e2.target then false else true, e2)

unfoldable pub commit : Encoder → List ℕ
commit e = take e.p (set e.target e.last_p e.count)

-- The loop of `encode_cobs`, and `none` for its result `false`.
unfoldable pub encode_loop : List ℕ → Encoder → Option (List ℕ)
unfolding insert commit
encode_loop [] e = some (commit e)
encode_loop (b ∷ source) e =
    let step = insert b e in let later = encode_loop source step.1 in if step.0 then later else none

unfoldable pub encode_cobs : List ℕ → List ℕ → Option (List ℕ)
unfolding encode_loop encoder
encode_cobs source target = encode_loop source (encoder target)

-- `cobs_decoder`
pub record Decoder : Type 0 where
  pub nonzero : Bool
  pub offset : ℕ

unfoldable pub decoder : ℕ → Decoder
decoder b = record { nonzero = b == 255; offset = b }

unfoldable pub get : ℕ → Decoder → Option ℕ
get inpt d = if d.offset == 1 then (if d.nonzero then none else some 0) else some inpt

unfoldable pub advance : ℕ → Decoder → Decoder
advance inpt d =
    if d.offset == 1
    then record { nonzero = inpt == 255; offset = inpt }
    else record d { offset = (d.offset + 255) % 256 }

unfoldable pub iter : ℕ → Decoder → Option ℕ × Decoder
unfolding get advance
iter inpt d = (get inpt d, advance inpt d)

-- The loop of `decode_cobs`; `out` are the bytes written at the front of a target of `size` bytes.
unfoldable pub decode_loop : ℕ → List ℕ → Decoder → List ℕ → Bool × List ℕ
unfolding iter
decode_loop size [] d out = (true, out)
decode_loop size (b ∷ source) d out =
    let (val, d') = iter b d in
    elim val [
      | none ↦ decode_loop size source d' out
      | some v ↦
          let out' = out ++ (v ∷ []) in
          elim (length out' == size) [
            | true ↦ (false, out')
            | false ↦ decode_loop size source d' out'
          ]
    ]

-- The first byte is read without a test, and the loop over the others of an empty source does not
-- end in it: `none`.
unfoldable pub decode_cobs : List ℕ → ℕ → Option (Bool × List ℕ)
unfolding decode_loop decoder
decode_cobs [] size = none
decode_cobs (b ∷ source) size = some (decode_loop size source (decoder b) [])
