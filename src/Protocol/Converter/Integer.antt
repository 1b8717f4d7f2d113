-- ===== src/Protocol/Converter/Integer.antt =====
-- `converter< D, E >` for a `base_type` D: an unsigned integer of `w` bytes, and `bool`.
use emlabcpp.Prelude.{
  ℕ, ◌^◌, ◌≤◌, ◌<◌, ◌≡◌, ap, ◌∙◌, arith, true, List, ◌++◌, length, length-append, length-take,
  length-replicate, take, replicate, All, All-take, ltb, ltb→le, le→ltb, if◌then◌else◌, take-append,
  Bool-cases, inl, inr, subst,
}
use emlabcpp.Protocol.Serializer
use emlabcpp.Protocol.Serializer.{Endian}
use emlabcpp.Protocol.Serializer.Bytes.{
  IsByte, bytes, number, length-bytes, bytes-IsByte, serialize_at-bytes, deserialize-number,
}
use emlabcpp.Protocol.Serializer.RoundTrip.{number-bytes, number-lt}
use emlabcpp.Protocol.Converter.{
  size_err, Conversion, done, fail, used, Converter, IsConverter, Anything,
}

-- The span is full of zeros before; the result does not depend on that.
unfoldable pub serialize_at : Endian → ℕ → ℕ → List ℕ
serialize_at e w item = Serializer.serialize_at e w (replicate w 0) item

unfoldable pub deserialize : Endian → ℕ → List ℕ → Conversion ℕ
deserialize e w buffer =
    if ltb (length buffer) w
    then fail 0 size_err
    else done w (Serializer.deserialize e w (take w buffer))

abbrev pub integer : Endian → ℕ → Converter ℕ
integer e w = record {
  min_size = w;
  max_size = w;
  serialize_at = serialize_at e w;
  deserialize = deserialize e w;
}

abbrev pub Fits : ℕ → ℕ → Type 0
Fits w n = n < 256 ^ w

pub serialize_at-digits : (e : Endian) (w item : ℕ) → serialize_at e w item ≡ bytes e w item
unfolding serialize_at
serialize_at-digits e w item = serialize_at-bytes e w item (replicate w 0) (length-replicate w 0)

pub length-serialize_at : (e : Endian) (w item : ℕ) → length (serialize_at e w item) ≡ w
length-serialize_at e w item = ap length (serialize_at-digits e w item) ∙ length-bytes e w item

pub deserialize-long :
    (e : Endian) (w : ℕ) (buffer : List ℕ)
    → w ≤ length buffer
    → All IsByte (take w buffer)
    → deserialize e w buffer ≡ done w (number e (take w buffer))
unfolding deserialize
deserialize-long e w buffer h bs = rw (
  le→ltb (length buffer) w h,
  deserialize-number e w (take w buffer) (omega (arith, length-take w buffer)) bs,
)

pub deserialize-short :
    (e : Endian) (w : ℕ) (buffer : List ℕ)
    → ltb (length buffer) w ≡ true
    → deserialize e w buffer ≡ fail 0 size_err
unfolding deserialize
deserialize-short e w buffer h = rw h

pub integer-done :
    (e : Endian) (w : ℕ) (buffer : List ℕ) {u v : ℕ}
    → deserialize e w buffer ≡ done u v
    → (u ≡ w) × (w ≤ length buffer)
unfolding deserialize
integer-done e w buffer h = ground arith

integer-round_trip :
    (e : Endian) (w v : ℕ) (rest : List ℕ)
    → Fits w v
    → deserialize e w (serialize_at e w v ++ rest) ≡ done (length (serialize_at e w v)) v
integer-round_trip e w v rest h =
    rw (serialize_at-digits e w v, length-bytes e w v)
      let front : take w (bytes e w v ++ rest) ≡ bytes e w v =
          (rw (length-bytes e w v) at (take-append (bytes e w v) rest)) in
        deserialize-long e w (bytes e w v ++ rest)
          (omega (arith, length-append (bytes e w v) rest, length-bytes e w v))
          (rw front (bytes-IsByte e w v))
        ∙ ap (done w) (ap (number e) front ∙ number-bytes e w v h)

integer_sound :
    (e : Endian) (w : ℕ) (buffer : List ℕ) (n v : ℕ)
    → All IsByte buffer
    → deserialize e w buffer ≡ done n v
    → Fits w v
integer_sound e w buffer n v bs h = elim (Bool-cases (ltb (length buffer) w)) [
  | inl short ↦ cc (deserialize-short e w buffer short)
  | inr long ↦
      let here : number e (take w buffer) ≡ v = cc (
        deserialize-long e w buffer (ltb→le (length buffer) w long)
          (All-take IsByte w buffer bs)) in
      let width : length (take w buffer) ≡ w =
        omega (arith, length-take w buffer, ltb→le (length buffer) w long) in
      subst (Fits w) here (rw width at (number-lt e (take w buffer) (All-take IsByte w buffer bs)))
]

integer-in_bounds :
    (e : Endian) (w : ℕ) (buffer : List ℕ) → used (deserialize e w buffer) ≤ length buffer
unfolding deserialize
integer-in_bounds e w buffer = ground arith

-- The converter of an unsigned integer of `w` bytes, in either byte order, fulfils the contract of
-- a converter before anything, for the numbers below `256 ^ w`.
pub integer-IsConverter : (e : Endian) (w : ℕ) → IsConverter (integer e w) (Fits w) Anything
integer-IsConverter e w = record {
  fits = λ v h. omega (arith, length-serialize_at e w v);
  bytes = λ v h. rw (serialize_at-digits e w v) (bytes-IsByte e w v);
  round_trip = λ v rest h _. integer-round_trip e w v rest h;
  in_bounds = integer-in_bounds e w;
  sound = integer_sound e w;
}
