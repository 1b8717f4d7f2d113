-- ===== src/Protocol/Converter/Text.antt =====
-- The converters of strings of a fixed capacity, of what an error leaves, and of durations.
use emlabcpp.Prelude.{
  Option, none, some, ℕ, zero, suc, ◌+◌, ◌-◌, ◌%◌, ◌^◌, ◌≤◌, ◌<◌, ◌≡◌, ◌≢◌, refl, ap, ◌∙◌, arith,
  false, List, [], ◌∷◌, ◌++◌, append_assoc, length, length-append, length-take, length-drop, take,
  drop, take-append, drop-append, replicate, All, ltb, leb, le→ltb, ◌==◌, if◌then◌else◌,
}
use native.Mathlib.Nat.{mod-eq_of_lt}
use emlabcpp.Protocol.Serializer.{Endian}
use emlabcpp.Protocol.Converter.{
  size_err, bigsize_err, Conversion, done, fail, map_value, ◌>>=◌, Converter,
}
use emlabcpp.Protocol.Converter.Integer.{
  integer, integer-IsConverter, integer-done, length-serialize_at,
}
use emlabcpp.Protocol.Converter.Outcome.{map_value-done}
use emlabcpp.Protocol.Converter.Scalar.{decomposed}

-- `string_buffer::size`: the characters before the first zero
unfoldable pub text_size : List ℕ → ℕ
text_size [] = 0
text_size (c ∷ cs) = let n = text_size cs in if c == 0 then 0 else suc n

-- `converter< string_buffer< N >, E >`. A value is the array of its N characters. The reader writes
-- over the front of the array that it is given, `initial`.
module _ (e : Endian) (n : ℕ) where
  unfoldable pub serialize_string_at : List ℕ → List ℕ
  unfolding text_size
  serialize_string_at item =
      let size = text_size item in (integer e 2).serialize_at (size % 256 ^ 2) ++ take size item

  unfoldable pub deserialize_string : List ℕ → List ℕ → Conversion (List ℕ)
  deserialize_string initial buffer = do
    (u, size) ← (integer e 2).deserialize buffer
    if ltb (length buffer) (u + size)
        then fail u size_err
        else if leb n size
        then fail u bigsize_err
        else done (u + size) (take size (drop u buffer) ++ drop size initial)

-- `std::chrono::duration`
pub record Duration (A : Type 0) : Type 0 where
  pub count : A

abbrev pub duration : {A : Type 0} → Converter A → Converter (Duration A)
duration rep = decomposed (λ item. item.count) (λ r. record { count = r }) rep

-- `error_record`, with the array of its mark
pub record Report : Type 0 where
  pub error_mark : List ℕ
  pub offset : ℕ

-- `converter< error_record, E >`. The offset stands at the end of the span: the bytes between are
-- those that the span held before. The reader returns what the offset used. It takes
-- `buffer.subspan< 18 >()` with no test: `none` is a buffer that is shorter, where that is undefined.
-- `std::size_t` has 8 bytes.
module _ (e : Endian) where
  unfoldable pub serialize_report_at : List ℕ → Report → List ℕ
  unfolding serialize_string_at
  serialize_report_at span item =
      let text = serialize_string_at e 16 item.error_mark in
      text ++ (drop (length text) (take 18 span) ++ (integer e 8).serialize_at item.offset)

  unfoldable pub deserialize_report : List ℕ → List ℕ → Option (Conversion Report)
  unfolding deserialize_string
  deserialize_report initial buffer = elim (deserialize_string e 16 initial buffer) [
    | fail u m ↦ some (fail u m)
    | done u error_mark ↦
        if ltb (length buffer) 18
        then none
        else some (
            map_value (λ offset. record { error_mark = error_mark; offset = offset })
              ((integer e 8).deserialize (drop 18 buffer)))
  ]

-- an array of `n` characters with a text at its front
abbrev pub array_of : ℕ → List ℕ → List ℕ
array_of n text = text ++ replicate (n - length text) 0

text_size-array_of :
    (text : List ℕ) (k : ℕ)
    → All (λ c. c ≢ 0) text
    → text_size (text ++ replicate k 0) ≡ length text
unfolding text_size
text_size-array_of [] zero h = refl
text_size-array_of [] (suc k) h = refl
text_size-array_of (c ∷ cs) k h =
    let open_text : (c == 0) ≡ false = ground (arith, h.0) in
    rw open_text (ap suc (text_size-array_of cs k h.1))

drop-replicate : (m k : ℕ) → drop {A = ℕ} m (replicate k 0) ≡ replicate (k - m) 0
drop-replicate zero k = ap (λ (t : ℕ). replicate t 0) {x = k} {y = k - 0} (omega arith)
drop-replicate (suc m) zero = ap (λ (t : ℕ). replicate t 0) {x = 0} {y = 0 - suc m} (omega arith)
drop-replicate (suc m) (suc k) =
    drop-replicate m k ∙ ap (λ (t : ℕ). replicate t 0) {x = k - m} {y = suc k - suc m} (omega arith)

module _ (e : Endian) (n : ℕ) where
  string_written :
      (text : List ℕ)
      → All (λ c. c ≢ 0) text
      → length text < 65536
      → serialize_string_at e n (array_of n text) ≡ (integer e 2).serialize_at (length text) ++ text
  unfolding serialize_string_at
  string_written text h small =
      rw
        (
          text_size-array_of text (n - length text) h,
          mod-eq_of_lt {n = length text} {m = 65536} small,
          take-append text (replicate (n - length text) 0),
        )
        refl

  -- For a capacity `n` of at most 65536, the array of a text of fewer than `n` characters, none of
  -- them zero, is read back as it was written, into an array of zeros and whatever follows it in
  -- the message.
  pub string_round_trip :
      (text rest : List ℕ)
      → All (λ c. c ≢ 0) text
      → length text < n
      → n ≤ 65536
      → deserialize_string e n (replicate n 0) (serialize_string_at e n (array_of n text) ++ rest)
        ≡ done (length (serialize_string_at e n (array_of n text))) (array_of n text)
  unfolding deserialize_string
  string_round_trip text rest h fits hn =
      let counter = (integer e 2).serialize_at (length text) in
      let buffer = counter ++ (text ++ rest) in
      let wide : length counter ≡ 2 = length-serialize_at e 2 (length text) in
      let read =
        (integer-IsConverter e 2).round_trip (length text) (text ++ rest) (omega arith) tt in
      let inner : take (length text) (drop 2 buffer) ≡ text =
        ap (take (length text)) (rw wide at (drop-append counter (text ++ rest)))
        ∙ take-append text rest in
      let enough : 2 + length text ≤ length buffer =
        omega (arith, length-append counter (text ++ rest), length-append text rest) in
      let room : leb n (length text) ≡ false = ground arith in
      rw
        (
          string_written text h (omega arith),
          append_assoc,
          read,
          wide,
          le→ltb (length buffer) (2 + length text) enough,
          room,
          inner,
          drop-replicate (length text) n,
        )
        (ap (λ k. done k (array_of n text)) (omega (arith, length-append counter text)))

text_size-length : (cs : List ℕ) → text_size cs ≤ length cs
unfolding text_size
text_size-length [] = omega arith
text_size-length (c ∷ cs) = ground (arith, text_size-length cs)

module _ (e : Endian) where
  report_offset :
      (initial buffer : List ℕ) (read : Report) (u : ℕ)
      → deserialize_report e initial buffer ≡ some (done u read)
      → u ≡ 8
  unfolding deserialize_report
  report_offset initial buffer read u h =
      grind (arith, h, map_value-done, integer-done e 8 (drop 18 buffer))

  -- An error record whose mark is an array of 16 characters takes 26 bytes of a span of at least 18
  -- for the mark, but whenever one is read the bytes reported as used are 8.
  pub report_used :
      (span initial buffer : List ℕ) (item read : Report) (u : ℕ)
      → 18 ≤ length span
      → length item.error_mark ≡ 16
      → deserialize_report e initial buffer ≡ some (done u read)
      → (length (serialize_report_at e span item) ≡ 26) × (u ≡ 8)
  unfolding deserialize_report serialize_report_at serialize_string_at
  report_used span initial buffer item read u long mark h =
      let size = text_size item.error_mark in
      let counter = (integer e 2).serialize_at (size % 256 ^ 2) in
      let written = counter ++ take size item.error_mark in
      let tail = drop (length written) (take 18 span) in
      (
        omega (
          arith,
          text_size-length item.error_mark,
          length-take size item.error_mark,
          length-take 18 span,
          length-drop (length written) (take 18 span),
          length-append counter (take size item.error_mark),
          length-serialize_at e 2 (size % 256 ^ 2),
          length-serialize_at e 8 item.offset,
          length-append tail ((integer e 8).serialize_at item.offset),
          length-append written (tail ++ (integer e 8).serialize_at item.offset),
        ),
        report_offset initial buffer read u h,
      )
