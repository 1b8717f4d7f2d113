-- ===== src/Cobs/Link.antt =====
-- cobs.hpp: `encode_cobs` and `decode_cobs` together.
use emlabcpp.Prelude.{
  ℕ, ◌+◌, ◌/◌, ◌≤◌, ◌<◌, ◌≡◌, sym, ap, ◌∙◌, arith, true, some, List, length, All, subst,
}
use emlabcpp.Cobs.{encode_cobs, decode_cobs}
use emlabcpp.Cobs.Encode.{cobs}
use emlabcpp.Cobs.Encode.Loop.{fits, fits_short, encode_cobs-fits}
use emlabcpp.Cobs.Encode.Code.{IsMark, cobs-IsMark, length-cobs, cobs-length}
use emlabcpp.Cobs.Decode.{decode_cobs-cobs}

fits-some : (bytes : List ℕ) (size : ℕ) {out : List ℕ} → fits bytes size ≡ some out → bytes ≡ out
unfolding fits
fits-some bytes size e = ground (arith, e)

encode_cobs-some :
    (source target : List ℕ) {out : List ℕ}
    → 1 < length target
    → encode_cobs source target ≡ some out
    → cobs source ≡ out
encode_cobs-some source target h e =
    fits-some (cobs source) (length target) (sym (encode_cobs-fits source target h) ∙ e)

-- For a target that is longer than the source, a byte for each 254 bytes of it and one more,
-- `encode_cobs` gives an encoding, and `decode_cobs` gives the source back from it, when its own
-- target is longer than the source.
pub decode_cobs-encode_cobs :
    (size : ℕ) (source target : List ℕ)
    → 1 + length source + length source / 254 < length target
    → length source < size
    → (out : List ℕ) × (encode_cobs source target ≡ some out)
      × (decode_cobs out size ≡ some (true, source))
decode_cobs-encode_cobs size source target room fit =
    let wide = length-cobs source in
    (
      cobs source,
      encode_cobs-fits source target (omega arith)
          ∙ fits_short (cobs source) (length target) (omega (arith, wide)),
      decode_cobs-cobs size source fit,
    )

-- For a target of at least two bytes and a source of bytes, what `encode_cobs` gives are bytes that
-- are not zero.
pub encode_cobs-IsMark :
    (source target : List ℕ) {out : List ℕ}
    → 1 < length target
    → All (λ b. b < 256) source
    → encode_cobs source target ≡ some out
    → All IsMark out
encode_cobs-IsMark source target h bytes e =
    subst (All IsMark) (encode_cobs-some source target h e) (cobs-IsMark source bytes)

-- For a target of at least two bytes, what `encode_cobs` gives is longer than the source by at
-- least one byte, and by at most one byte and one for each 254 bytes of the source.
pub length-encode_cobs :
    (source target : List ℕ) {out : List ℕ}
    → 1 < length target
    → encode_cobs source target ≡ some out
    → (1 + length source ≤ length out) × (length out ≤ 1 + length source + length source / 254)
length-encode_cobs source target h e =
    let same = ap (λ (t : List ℕ). length t) (encode_cobs-some source target h e) in
    (omega (arith, same, cobs-length source), omega (arith, same, length-cobs source))
