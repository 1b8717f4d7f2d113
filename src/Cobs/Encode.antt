-- ===== src/Cobs/Encode.antt =====
-- cobs.hpp: the encoding as a function of the bytes, and the encoder that writes it into its target.
pub mod Loop
pub mod Code
use emlabcpp.Prelude.{
  ℕ, zero, suc, ◌+◌, ◌*◌, ◌-◌, ◌/◌, ◌%◌, ◌≤◌, ◌<◌, ◌≡◌, ◌≢◌, refl, sym, ap, ◌∙◌, arith, Bool, true,
  false, Option, none, some, List, [], ◌∷◌, ◌++◌, append_assoc, append-nil, length, length-append,
  length-set, set, take, take-append, ltb, le→ltb, lt→ltb, ◌==◌, ==_iff, if◌then◌else◌, Bool-cases,
  inl, inr, ◌⊎◌, All, All-append, subst,
}
use emlabcpp.Cobs.{Encoder, encoder, put, close_full, insert, commit, encode_loop, encode_cobs}

-- What is left to write with the bytes of the open block, which are not zero: its code, those
-- bytes, and the other blocks.
unfoldable pub stuffed : List ℕ → List ℕ → List ℕ
stuffed block [] = (1 + length block) ∷ block
stuffed block (b ∷ source) =
    let ended = stuffed [] source in
    let longer = stuffed (block ++ (b ∷ [])) source in
    if b == 0
    then (1 + length block) ∷ (block ++ ended)
    else if length block == 253
    then 255 ∷ ((block ++ (b ∷ [])) ++ ended)
    else longer

-- The encoding of a source: blocks of at most 254 bytes, each behind its code.
abbrev pub cobs : List ℕ → List ℕ
cobs source = stuffed [] source

set-append :
    (xs : List ℕ) (x v : ℕ) (ys : List ℕ) → set (xs ++ (x ∷ ys)) (length xs) v ≡ xs ++ (v ∷ ys)
set-append [] x v ys = refl
set-append (y ∷ xs) x v ys = ap (λ (t : List ℕ). y ∷ t) (set-append xs x v ys)

pub length-stuffed : (source block : List ℕ) → 1 + length block ≤ length (stuffed block source)
unfolding stuffed
length-stuffed [] block = omega arith
length-stuffed (b ∷ source) block = ground (
  arith,
  length-append block (stuffed [] source),
  length-append (block ++ (b ∷ [])) (stuffed [] source),
  length-append block (b ∷ []),
  length-stuffed source (block ++ (b ∷ [])),
)

pub stuffed_nil : (block : List ℕ) → stuffed block [] ≡ (1 + length block) ∷ block
unfolding stuffed
stuffed_nil block = refl

pub stuffed_zero :
    (source block : List ℕ)
    → stuffed block (0 ∷ source) ≡ (1 + length block) ∷ (block ++ stuffed [] source)
unfolding stuffed
stuffed_zero source block = refl

-- A byte that is not zero goes into the block, and the 254th one ends it.
pub stuffed_open :
    (b : ℕ) (source block : List ℕ)
    → length block < 253
    → stuffed block (suc b ∷ source) ≡ stuffed (block ++ (suc b ∷ [])) source
unfolding stuffed
stuffed_open b source block short = ground arith

pub stuffed_full :
    (b : ℕ) (source block : List ℕ)
    → length block ≡ 253
    → stuffed block (suc b ∷ source) ≡ 255 ∷ ((block ++ (suc b ∷ [])) ++ stuffed [] source)
unfolding stuffed
stuffed_full b source block long = ground arith

pub block_cases :
    (block : List ℕ) → length block < 254 → (length block ≡ 253) ⊎ (length block < 253)
block_cases block short = grind arith

-- The encoder has written `front`, a place for a code, and the block.
pub record Writing (e : Encoder) (front block rest : List ℕ) : Type 0 where
  pub old : ℕ
  pub target_at : e.target ≡ front ++ (old ∷ (block ++ rest))
  pub last_at : e.last_p ≡ length front
  pub p_at : e.p ≡ length front + 1 + length block
  pub count_at : e.count ≡ 1 + length block

module _ {e : Encoder} {front block : List ℕ} where
  pub Writing-full :
      (rest : List ℕ) → Writing e front block rest → (e.p == length e.target) ≡ (length rest == 0)
  Writing-full rest h = ground (
    arith,
    h.p_at,
    ap (λ (t : List ℕ). length t) h.target_at,
    length-append front (h.old ∷ (block ++ rest)),
    length-append block rest,
  )

  pub Writing-free :
      (r : ℕ) (rest : List ℕ) → Writing e front block (r ∷ rest) → (e.p == length e.target) ≡ false
  Writing-free r rest h = Writing-full (r ∷ rest) h ∙ ground arith

  pub put_zero :
      (r : ℕ) (rest : List ℕ)
      → Writing e front block (r ∷ rest)
      → Writing (put 0 e) (front ++ ((1 + length block) ∷ block)) [] rest
  unfolding put
  put_zero r rest h = record {
    old = r;
    target_at =
        rw
          (
            h.target_at,
            h.last_at,
            h.count_at,
            set-append front h.old (1 + length block) (block ++ (r ∷ rest)),
            append_assoc,
          )
          refl;
    last_at = omega (arith, h.p_at, length-append front ((1 + length block) ∷ block));
    p_at = omega (arith, h.p_at, length-append front ((1 + length block) ∷ block));
    count_at = refl;
  }

  pub put_byte :
      (b r : ℕ) (rest : List ℕ)
      → b ≢ 0
      → length block < 254
      → Writing e front block (r ∷ rest)
      → Writing (put b e) front (block ++ (b ∷ [])) rest
  put_byte b r rest nonzero short h =
      let wide = length-append block (b ∷ []) in
      let plain : put b e ≡ record {
        target = set e.target e.p b;
        last_p = e.last_p;
        p = e.p + 1;
        count = (e.count + 1) % 256;
      } =
        unfold put in ground arith in
      let split : e.target ≡ (front ++ (h.old ∷ block)) ++ (r ∷ rest) =
        h.target_at ∙ sym (append_assoc front (h.old ∷ block) (r ∷ rest)) in
      let place : e.p ≡ length (front ++ (h.old ∷ block)) =
        omega (arith, h.p_at, length-append front (h.old ∷ block)) in
      subst (λ (t : Encoder). Writing t front (block ++ (b ∷ [])) rest) (sym plain)
        (record {
          old = h.old;
          target_at =
              rw
                (
                  place,
                  split,
                  set-append (front ++ (h.old ∷ block)) r b rest,
                  append_assoc,
                  append_assoc,
                )
                refl;
          last_at = h.last_at;
          p_at = omega (arith, h.p_at, wide);
          count_at = omega (arith, h.count_at, wide);
        })

  pub close_block :
      (r : ℕ) (rest : List ℕ)
      → length block ≡ 254
      → Writing e front block (r ∷ rest)
      → Writing (close_full e) (front ++ (255 ∷ block)) [] rest
  close_block r rest long h =
      let closed : close_full e
          ≡ record { target = set e.target e.last_p 255; last_p = e.p; p = e.p + 1; count = 1 } =
        unfold close_full in ground (arith, h.count_at) in
      subst (λ (t : Encoder). Writing t (front ++ (255 ∷ block)) [] rest) (sym closed)
        (record {
          old = r;
          target_at =
              rw
                (
                  h.target_at,
                  h.last_at,
                  set-append front h.old 255 (block ++ (r ∷ rest)),
                  append_assoc,
                )
                refl;
          last_at = omega (arith, h.p_at, length-append front (255 ∷ block));
          p_at = omega (arith, h.p_at, length-append front (255 ∷ block));
          count_at = refl;
        })

  pub keep_block :
      (rest : List ℕ) → length block < 254 → Writing e front block rest → close_full e ≡ e
  unfolding close_full
  keep_block rest short h = ground (arith, h.count_at)

  pub commit-Writing :
      (rest : List ℕ)
      → Writing e front block rest
      → commit e ≡ front ++ ((1 + length block) ∷ block)
  unfolding commit
  commit-Writing rest h =
      let code = 1 + length block in
      let place : e.p ≡ length (front ++ (code ∷ block)) =
        omega (arith, h.p_at, length-append front (code ∷ block)) in
      let whole : set e.target e.last_p e.count ≡ (front ++ (code ∷ block)) ++ rest =
        rw (h.target_at, h.last_at, h.count_at) (set-append front h.old code (block ++ rest))
        ∙ sym (append_assoc front (code ∷ block) rest) in
      rw (place, whole) (take-append (front ++ (code ∷ block)) rest)

-- What is left of the target decides: the encoder goes on only while a byte is free.
pub insert-full :
    (b : ℕ) (e : Encoder) → ((put b e).p == length (put b e).target) ≡ true → (insert b e).0 ≡ false
unfolding insert
insert-full b e h = ground (arith, h)

pub insert-open :
    (b : ℕ) (e : Encoder) {stop : Bool}
    → ((put b e).p == length (put b e).target) ≡ false
    → ((close_full (put b e)).p == length (close_full (put b e)).target) ≡ stop
    → insert b e ≡ (if stop then false else true, close_full (put b e))
unfolding insert
insert-open b e h k = rw (h, k) refl

pub encode_loop_stop :
    (b : ℕ) (source : List ℕ) (e : Encoder)
    → (insert b e).0 ≡ false
    → encode_loop (b ∷ source) e ≡ none
unfolding encode_loop
encode_loop_stop b source e h = rw h refl

pub encode_loop_next :
    (b : ℕ) (source : List ℕ) (e e' : Encoder)
    → insert b e ≡ (true, e')
    → encode_loop (b ∷ source) e ≡ encode_loop source e'
unfolding encode_loop
encode_loop_next b source e e' h = rw h refl
