-- ===== src/Cobs/Decode.antt =====
-- cobs.hpp: the decoder gives back what was encoded.
use emlabcpp.Prelude.{
  ℕ, zero, suc, ◌+◌, ◌%◌, ◌<◌, ◌≡◌, refl, sym, ap, ◌∙◌, arith, Bool, true, false, Option, some,
  List, [], ◌∷◌, ◌++◌, append_assoc, append-nil, length, length-append, ◌==◌, inl, inr,
}
use emlabcpp.Cobs.{Decoder, decoder, get, advance, iter, decode_loop, decode_cobs}
use emlabcpp.Cobs.Encode.{
  stuffed, cobs, stuffed_nil, stuffed_zero, stuffed_open, stuffed_full, block_cases, length-stuffed,
}

-- One round of the loop that writes a byte.
round :
    (size b v : ℕ) (source : List ℕ) (d d' : Decoder) (out : List ℕ)
    → iter b d ≡ (some v, d')
    → (length (out ++ (v ∷ [])) == size) ≡ false
    → decode_loop size (b ∷ source) d out ≡ decode_loop size source d' (out ++ (v ∷ []))
round size b v source d d' out e free =
    let val = ap (λ (t : Option ℕ × Decoder). t.0) e in
    let state = ap (λ (t : Option ℕ × Decoder). t.1) e in
    unfold decode_loop iter in ground (arith, val, state, free)

free_slot :
    (size v : ℕ) (out : List ℕ) → length out + 1 < size → (length (out ++ (v ∷ [])) == size) ≡ false
free_slot size v out room = ground (arith, length-append out (v ∷ []))

iter_inside :
    (b k : ℕ) (mark : Bool)
    → 0 < k
    → k < 255
    → iter b (record { nonzero = mark; offset = suc k })
      ≡ (some b, record { nonzero = mark; offset = k })
unfolding iter get advance
iter_inside b k mark some_left small =
    let off : (suc k == 1) ≡ false = ground arith in
    let next : (suc k + 255) % 256 ≡ k = omega arith in rw (off, next) refl

block_end :
    (size b : ℕ) (source out : List ℕ)
    → length out + 1 < size
    → decode_loop size (b ∷ source) (record { nonzero = false; offset = 1 }) out
      ≡ decode_loop size source (decoder b) (out ++ (0 ∷ []))
unfolding decoder
block_end size b source out room =
    let step : iter b (record { nonzero = false; offset = 1 }) ≡ (some 0, decoder b) =
      unfold iter get advance decoder in refl in
    round size b 0 source (record { nonzero = false; offset = 1 }) (decoder b) out step
      (free_slot size 0 out room)

full_end :
    (size b : ℕ) (source out : List ℕ)
    → decode_loop size (b ∷ source) (record { nonzero = true; offset = 1 }) out
      ≡ decode_loop size source (decoder b) out
unfolding decode_loop iter get advance decoder
full_end size b source out = refl

whole_block :
    (size : ℕ) (block source : List ℕ) (mark : Bool) (out : List ℕ)
    → length block < 255
    → length out + length block < size
    → decode_loop size
        (block ++ source)
        (record { nonzero = mark; offset = suc (length block) })
        out
      ≡ decode_loop size source (record { nonzero = mark; offset = 1 }) (out ++ block)
whole_block size [] source mark out short room =
    ap (decode_loop size source (record { nonzero = mark; offset = 1 })) (sym (append-nil out))
whole_block size (b ∷ block) source mark out short room =
    round size b b (block ++ source) (record { nonzero = mark; offset = suc (suc (length block)) })
      (record { nonzero = mark; offset = suc (length block) }) out
      (iter_inside b (suc (length block)) mark (omega arith) short)
      (free_slot size b out (omega arith))
    ∙ whole_block size block source mark (out ++ (b ∷ [])) (omega arith)
        (omega (arith, length-append out (b ∷ [])))
    ∙ ap (decode_loop size source (record { nonzero = mark; offset = 1 }))
        (append_assoc out (b ∷ []) block)

-- the decoder at the code of a block
decode_from : ℕ → List ℕ → List ℕ → Bool × List ℕ
decode_from size [] out = (true, out)
decode_from size (code ∷ source) out = decode_loop size source (decoder code) out

block_decoder : (k : ℕ) → k < 254 → decoder (1 + k) ≡ record { nonzero = false; offset = suc k }
unfolding decoder
block_decoder k short =
    let plain : (1 + k == 255) ≡ false = ground arith in
    let next : 1 + k ≡ suc k = omega arith in rw (plain, next) refl

full_decoder : (k : ℕ) → k ≡ 254 → decoder 255 ≡ record { nonzero = true; offset = suc k }
unfolding decoder
full_decoder k long = rw long refl

-- A block of the encoding, the last one or one before another block.
last_block :
    (size : ℕ) (block out : List ℕ)
    → length block < 254
    → length out + length block < size
    → decode_from size ((1 + length block) ∷ block) out ≡ (true, out ++ block)
unfolding decode_from
last_block size block out short room =
    ap (λ (t : Decoder). decode_loop size block t out) (block_decoder (length block) short)
    ∙ ap
        (λ (t : List ℕ).
          decode_loop size t (record { nonzero = false; offset = suc (length block) }) out)
        (sym (append-nil block))
    ∙ whole_block size block [] false out (omega arith) room
    ∙ unfold decode_loop in refl

middle_block :
    (size : ℕ) (block next out : List ℕ)
    → length block < 254
    → length out + length block + 1 < size
    → 0 < length next
    → decode_from size ((1 + length block) ∷ (block ++ next)) out
      ≡ decode_from size next ((out ++ block) ++ (0 ∷ []))
unfolding decode_from
middle_block size block [] out short room some_next = absurd (omega arith)
middle_block size block (code ∷ next) out short room some_next =
    ap (λ (t : Decoder). decode_loop size (block ++ (code ∷ next)) t out)
      (block_decoder (length block) short)
    ∙ whole_block size block (code ∷ next) false out (omega arith) (omega arith)
    ∙ block_end size code next (out ++ block) (omega (arith, length-append out block))

full_block :
    (size : ℕ) (block next out : List ℕ)
    → length block ≡ 254
    → length out + length block < size
    → 0 < length next
    → decode_from size (255 ∷ (block ++ next)) out ≡ decode_from size next (out ++ block)
unfolding decode_from
full_block size block [] out long room some_next = absurd (omega arith)
full_block size block (code ∷ next) out long room some_next =
    ap (λ (t : Decoder). decode_loop size (block ++ (code ∷ next)) t out)
      (full_decoder (length block) long)
    ∙ whole_block size block (code ∷ next) true out (omega arith) room
    ∙ full_end size code next (out ++ block)

decode_from-stuffed :
    (size : ℕ) (source block out : List ℕ)
    → length block < 254
    → length out + (length block + length source) < size
    → decode_from size (stuffed block source) out ≡ (true, out ++ (block ++ source))
decode_from-stuffed size [] block out short room =
    rw (stuffed_nil block, append-nil) (last_block size block out short (omega arith))
decode_from-stuffed size (zero ∷ source) block out short room = rw (stuffed_zero source block) (
    middle_block size block (stuffed [] source) out short (omega arith)
      (omega (arith, length-stuffed source []))
    ∙ decode_from-stuffed size source [] ((out ++ block) ++ (0 ∷ [])) (omega arith)
        (omega (arith, length-append (out ++ block) (0 ∷ []), length-append out block))
    ∙ rw (append_assoc, append_assoc) refl)
decode_from-stuffed size (suc b ∷ source) block out short room =
    let wide = length-append block (suc b ∷ []) in
    let same : out ++ ((block ++ (suc b ∷ [])) ++ source) ≡ out ++ (block ++ (suc b ∷ source)) =
      ap (λ (t : List ℕ). out ++ t) (append_assoc block (suc b ∷ []) source) in
    elim (block_cases block short) [
      | inl full ↦
          let filled = block ++ (suc b ∷ []) in
          rw (stuffed_full b source block full) (
            full_block size filled (stuffed [] source) out (omega (arith, wide))
              (omega (arith, wide)) (omega (arith, length-stuffed source []))
            ∙ decode_from-stuffed size source [] (out ++ filled) (omega arith)
                (omega (arith, wide, length-append out filled))
            ∙ ap (λ (t : List ℕ). (true, t)) (append_assoc out filled source ∙ same))
      | inr few ↦ rw (stuffed_open b source block few) (
          decode_from-stuffed size source (block ++ (suc b ∷ [])) out (omega (arith, wide))
            (omega (arith, wide))
          ∙ ap (λ (t : List ℕ). (true, t)) same)
    ]

decode_cobs-from :
    (size : ℕ) (bytes : List ℕ)
    → 0 < length bytes
    → decode_cobs bytes size ≡ some (decode_from size bytes [])
unfolding decode_cobs decode_from
decode_cobs-from size [] h = absurd (omega arith)
decode_cobs-from size (code ∷ bytes) h = refl

-- The decoder gives the source of an encoding, for which its target is large enough.
pub decode_cobs-cobs :
    (size : ℕ) (source : List ℕ)
    → length source < size
    → decode_cobs (cobs source) size ≡ some (true, source)
decode_cobs-cobs size source room =
    decode_cobs-from size (cobs source) (omega (arith, length-stuffed source []))
    ∙ ap some (decode_from-stuffed size source [] [] (omega arith) (omega arith))
