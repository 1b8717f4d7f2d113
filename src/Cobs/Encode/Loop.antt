-- ===== src/Cobs/Encode/Loop.antt =====
-- cobs.hpp: the loop of `encode_cobs` writes the encoding, or finds the target full.
use emlabcpp.Prelude.{
  ℕ, zero, suc, ◌+◌, ◌≤◌, ◌<◌, ◌≡◌, refl, sym, ap, ap₂, ◌∙◌, arith, Bool, true, false, Option, none,
  some, List, [], ◌∷◌, ◌++◌, append_assoc, length, length-append, ltb, le→ltb, lt→ltb, ◌==◌,
  if◌then◌else◌, inl, inr,
}
use emlabcpp.Cobs.{Encoder, encoder, put, close_full, insert, encode_loop, encode_cobs}
use emlabcpp.Cobs.Encode.{
  stuffed, cobs, length-stuffed, stuffed_open, stuffed_full, block_cases, Writing, Writing-full,
  Writing-free, put_zero, put_byte, close_block, keep_block, commit-Writing, insert-full,
  insert-open, encode_loop_stop, encode_loop_next,
}

-- a result that leaves a byte of a target of `size` bytes unused
unfoldable pub fits : List ℕ → ℕ → Option (List ℕ)
fits out size = if ltb (length out) size then some out else none

pub fits_short : (out : List ℕ) (size : ℕ) → length out < size → fits out size ≡ some out
unfolding fits
fits_short out size h = rw (lt→ltb (length out) size h) refl

fits_long : (out : List ℕ) (size : ℕ) → size ≤ length out → fits out size ≡ none
unfolding fits
fits_long out size h = rw (le→ltb (length out) size h) refl

length-target :
    {e : Encoder} {front block rest : List ℕ}
    → Writing e front block rest
    → length e.target ≡ length front + 1 + length block + length rest
length-target {front} {block} {rest} h = omega (
  arith,
  ap (λ (t : List ℕ). length t) h.target_at,
  length-append front (h.old ∷ (block ++ rest)),
  length-append block rest,
)

overflow :
    {e : Encoder} {front block : List ℕ} (source : List ℕ)
    → Writing e front block []
    → fits (front ++ stuffed block source) (length e.target) ≡ none
overflow {front} {block} source h = fits_long _ _ (
    omega (
      arith,
      length-target h,
      length-append front (stuffed block source),
      length-stuffed source block,
    ))

-- One more byte: the target is full behind it, or the block stays open, or the block is closed.
stop :
    (b : ℕ) (source : List ℕ) (e : Encoder) {front block : List ℕ}
    → Writing (put b e) front block []
    → encode_loop (b ∷ source) e ≡ fits (front ++ stuffed block source) (length (put b e).target)
stop b source e h =
    encode_loop_stop b source e (insert-full b e (Writing-full [] h)) ∙ sym (overflow source h)

stay_open :
    (b : ℕ) (source : List ℕ) (e : Encoder) {front block : List ℕ} (rest : List ℕ)
    → Writing (put b e) front block rest
    → length block < 254
    → (0 < length rest
        → encode_loop source (put b e)
          ≡ fits (front ++ stuffed block source) (length (put b e).target))
    → encode_loop (b ∷ source) e ≡ fits (front ++ stuffed block source) (length (put b e).target)
stay_open b source e [] h short later = stop b source e h
stay_open b source e (r ∷ rest) h short later =
    let kept = keep_block (r ∷ rest) short h in
    let free = Writing-free r rest h in
    let step : insert b e ≡ (true, put b e) =
      insert-open b e {stop = false} free (rw kept free) ∙ ap (λ (t : Encoder). (true, t)) kept in
    encode_loop_next b source e (put b e) step ∙ later (omega arith)

stay_closed :
    (b : ℕ) (source : List ℕ) (e : Encoder) {front block : List ℕ} (rest : List ℕ)
    → Writing (close_full (put b e)) front block rest
    → ((put b e).p == length (put b e).target) ≡ false
    → (0 < length rest
        → encode_loop source (close_full (put b e))
          ≡ fits (front ++ stuffed block source) (length (close_full (put b e)).target))
    → encode_loop (b ∷ source) e
      ≡ fits (front ++ stuffed block source) (length (close_full (put b e)).target)
stay_closed b source e [] h free later =
    encode_loop_stop b source e
      (ap (λ (t : Bool × Encoder). t.0) (insert-open b e free (Writing-full [] h)))
    ∙ sym (overflow source h)
stay_closed b source e (r ∷ rest) h free later =
    encode_loop_next b source e (close_full (put b e))
      (insert-open b e free (Writing-free r rest h))
    ∙ later (omega arith)

-- The step for a zero, and for the other bytes in a block that stays open and in one that is full.
zero_code :
    (source front block : List ℕ)
    → (front ++ ((1 + length block) ∷ block)) ++ stuffed [] source
      ≡ front ++ stuffed block (0 ∷ source)
unfolding stuffed
zero_code source front block = append_assoc front ((1 + length block) ∷ block) (stuffed [] source)

full_code :
    (b : ℕ) (source front block : List ℕ)
    → length block ≡ 253
    → (front ++ (255 ∷ (block ++ (suc b ∷ [])))) ++ stuffed [] source
      ≡ front ++ stuffed block (suc b ∷ source)
full_code b source front block long =
    append_assoc front (255 ∷ (block ++ (suc b ∷ []))) (stuffed [] source)
    ∙ ap (λ (t : List ℕ). front ++ t) (sym (stuffed_full b source block long))

loop_zero :
    (source : List ℕ) (e : Encoder) (front block : List ℕ) (r : ℕ) (rest : List ℕ)
    → Writing e front block (r ∷ rest)
    → ((e' : Encoder)
        → Writing e' (front ++ ((1 + length block) ∷ block)) [] rest
        → 0 < length rest
        → encode_loop source e'
          ≡ fits ((front ++ ((1 + length block) ∷ block)) ++ stuffed [] source) (length e'.target))
    → encode_loop (0 ∷ source) e ≡ fits (front ++ stuffed block (0 ∷ source)) (length e.target)
loop_zero source e front block r rest h later =
    let wrote = put_zero r rest h in
    let same : length (put 0 e).target ≡ length e.target = omega (
      arith,
      length-target wrote,
      length-target h,
      length-append front ((1 + length block) ∷ block),
    ) in
    stay_open 0 source e rest wrote (omega arith) (later (put 0 e) wrote)
    ∙ ap₂ fits (zero_code source front block) same

loop_byte :
    (b : ℕ) (source : List ℕ) (e : Encoder) (front block : List ℕ) (r : ℕ) (rest : List ℕ)
    → length block < 253
    → Writing e front block (r ∷ rest)
    → ((e' : Encoder)
        → Writing e' front (block ++ (suc b ∷ [])) rest
        → 0 < length rest
        → encode_loop source e'
          ≡ fits (front ++ stuffed (block ++ (suc b ∷ [])) source) (length e'.target))
    → encode_loop (suc b ∷ source) e
      ≡ fits (front ++ stuffed block (suc b ∷ source)) (length e.target)
loop_byte b source e front block r rest short h later =
    let wrote = put_byte (suc b) r rest (λ z. omega arith) (omega arith) h in
    let wide = length-append block (suc b ∷ []) in
    let same : length (put (suc b) e).target ≡ length e.target =
      omega (arith, length-target wrote, length-target h, wide) in
    stay_open (suc b) source e rest wrote (omega (arith, wide)) (later (put (suc b) e) wrote)
    ∙ ap₂ fits (ap (λ (t : List ℕ). front ++ t) (sym (stuffed_open b source block short))) same

loop_full :
    (b : ℕ) (source : List ℕ) (e : Encoder) (front block : List ℕ) (r : ℕ) (rest : List ℕ)
    → length block ≡ 253
    → Writing e front block (r ∷ rest)
    → ((e' : Encoder) (rest' : List ℕ)
        → Writing e' (front ++ (255 ∷ (block ++ (suc b ∷ [])))) [] rest'
        → 0 < length rest'
        → encode_loop source e'
          ≡ fits
              ((front ++ (255 ∷ (block ++ (suc b ∷ [])))) ++ stuffed [] source)
              (length e'.target))
    → encode_loop (suc b ∷ source) e
      ≡ fits (front ++ stuffed block (suc b ∷ source)) (length e.target)
loop_full b source e front block r [] long h later =
    let wrote = put_byte (suc b) r [] (λ z. omega arith) (omega arith) h in
    let wide = length-append block (suc b ∷ []) in
    let same : length (put (suc b) e).target ≡ length e.target =
      omega (arith, length-target wrote, length-target h, wide) in
    let out = full_code b source front block long in
    encode_loop_stop (suc b) source e (insert-full (suc b) e (Writing-full [] wrote))
    ∙ sym (
        fits_long (front ++ stuffed block (suc b ∷ source)) (length e.target) (
          omega (
            arith,
            same,
            length-target wrote,
            wide,
            ap (λ (t : List ℕ). length t) out,
            length-append (front ++ (255 ∷ (block ++ (suc b ∷ [])))) (stuffed [] source),
            length-append front (255 ∷ (block ++ (suc b ∷ []))),
          )))
loop_full b source e front block r (s ∷ rest) long h later =
    let wide = length-append block (suc b ∷ []) in
    let wrote = put_byte (suc b) r (s ∷ rest) (λ z. omega arith) (omega arith) h in
    let closed = close_block s rest (omega (arith, wide)) wrote in
    let same : length (close_full (put (suc b) e)).target ≡ length e.target = omega (
      arith,
      length-target closed,
      length-target h,
      wide,
      length-append front (255 ∷ (block ++ (suc b ∷ []))),
    ) in
    stay_closed (suc b) source e rest closed (Writing-free s rest wrote)
      (later (close_full (put (suc b) e)) rest closed)
    ∙ ap₂ fits (full_code b source front block long) same

pub encode_loop-stuffed :
    (source : List ℕ) (e : Encoder) (front block rest : List ℕ)
    → Writing e front block rest
    → 0 < length rest
    → length block < 254
    → encode_loop source e ≡ fits (front ++ stuffed block source) (length e.target)
encode_loop-stuffed [] e front block rest h some_rest short =
    let done : encode_loop [] e ≡ some (front ++ ((1 + length block) ∷ block)) =
      unfold encode_loop in ap some (commit-Writing rest h) in
    done
    ∙ unfold stuffed in
      sym (
        fits_short (front ++ ((1 + length block) ∷ block)) (length e.target)
          (omega (arith, length-target h, length-append front ((1 + length block) ∷ block))))
encode_loop-stuffed (b ∷ source) e front block [] h some_rest short = absurd (omega arith)
encode_loop-stuffed (zero ∷ source) e front block (r ∷ rest) h some_rest short =
    loop_zero source e front block r rest h (λ e' h' some'.
      encode_loop-stuffed source e' (front ++ ((1 + length block) ∷ block)) [] rest h' some'
        (omega arith))
encode_loop-stuffed (suc b ∷ source) e front block (r ∷ rest) h some_rest short =
    elim (block_cases block short) [
      | inl full ↦ loop_full b source e front block r rest full h (λ e' rest' h' some'.
          encode_loop-stuffed source e' (front ++ (255 ∷ (block ++ (suc b ∷ [])))) [] rest' h' some'
            (omega arith))
      | inr small ↦ loop_byte b source e front block r rest small h (λ e' h' some'.
          encode_loop-stuffed source e' front (block ++ (suc b ∷ [])) rest h' some'
            (omega (arith, length-append block (suc b ∷ []))))
    ]

-- For a target of at least two bytes, `encode_cobs` gives the blocks of at most 254 bytes, each
-- behind its code, if these leave a byte of the target unused, and fails otherwise.
pub encode_cobs-fits :
    (source target : List ℕ)
    → 1 < length target
    → encode_cobs source target ≡ fits (cobs source) (length target)
encode_cobs-fits source [] h = absurd (omega arith)
encode_cobs-fits source (x ∷ []) h = absurd (omega arith)
encode_cobs-fits source (x ∷ y ∷ rest) h =
    unfold encode_cobs encoder in
    encode_loop-stuffed source (encoder (x ∷ y ∷ rest)) [] [] (y ∷ rest)
      (record { old = x; target_at = refl; last_at = refl; p_at = refl; count_at = refl })
      (omega arith) (omega arith)
