-- ===== src/Cobs/Tests.antt =====
-- Runs of the encoder and the decoder, and their theorems at concrete bytes.
use emlabcpp.Prelude.{
  ℕ, ◌≤◌, ◌≡◌, refl, arith, true, none, some, List, [], ◌∷◌, length, replicate, All,
}
use emlabcpp.Cobs.{encode_cobs, decode_cobs}
use emlabcpp.Cobs.Encode.{cobs}
use emlabcpp.Cobs.Encode.Loop.{fits, encode_cobs-fits}
use emlabcpp.Cobs.Encode.Code.{IsMark}
use emlabcpp.Cobs.Link.{decode_cobs-encode_cobs, encode_cobs-IsMark, length-encode_cobs}

abbrev message : List ℕ
message = 17 ∷ 0 ∷ 0 ∷ 51 ∷ []

abbrev coded : List ℕ
coded = 2 ∷ 17 ∷ 1 ∷ 2 ∷ 51 ∷ []

encode_message : encode_cobs message (replicate 6 9) ≡ some coded
unfolding encode_cobs
encode_message = refl

-- a target that the encoding fills to the last byte is refused
encode_filled : encode_cobs message (replicate 5 9) ≡ none
unfolding encode_cobs
encode_filled = refl

decode_message : decode_cobs coded 5 ≡ some (true, message)
unfolding decode_cobs
decode_message = refl

encode_cobs-fits_example : encode_cobs message (replicate 6 9) ≡ fits (cobs message) 6
encode_cobs-fits_example = encode_cobs-fits message (replicate 6 9) (omega arith)

decode_cobs-encode_cobs_example :
    (out : List ℕ) × (encode_cobs message (replicate 6 9) ≡ some out)
    × (decode_cobs out 5 ≡ some (true, message))
decode_cobs-encode_cobs_example =
    decode_cobs-encode_cobs 5 message (replicate 6 9) (omega arith) (omega arith)

encode_cobs-IsMark_example : All IsMark coded
encode_cobs-IsMark_example =
    encode_cobs-IsMark message (replicate 6 9) (omega arith) (omega arith) encode_message

length-encode_cobs_example : (5 ≤ length coded) × (length coded ≤ 5)
length-encode_cobs_example = length-encode_cobs message (replicate 6 9) (omega arith) encode_message
