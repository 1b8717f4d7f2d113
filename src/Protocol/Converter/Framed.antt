-- ===== src/Protocol/Converter/Framed.antt =====
-- The converters that carry a length or a presence byte before their content: `sized_buffer`,
-- `message` and `std::optional`; and `sizeless_message`, which takes all that is left.
pub mod Laws
pub mod Optional
use emlabcpp.Prelude.{
  ℕ, ◌+◌, ◌%◌, ◌^◌, List, [], ◌∷◌, ◌++◌, length, take, drop, Option, none, some, ltb, ◌==◌,
  if◌then◌else◌,
}
use emlabcpp.Protocol.Serializer.{Endian}
use emlabcpp.Protocol.Converter.{
  size_err, bigsize_err, Conversion, done, fail, add_used, map_value, ◌>>=◌, Converter,
}
use emlabcpp.Protocol.Converter.Integer.{integer}
use emlabcpp.Protocol.Converter.Scalar.{bounded}

-- `converter< sized_buffer< CounterDef, D >, E >`, with a counter of `w` bytes, less than
-- `std::size_t` has, so that the sum of the sizes does not wrap. The content is written behind the
-- counter; its size is cast to the counter's type.
module _ (e : Endian) (w : ℕ) {A : Type 0} (sub : Converter A) where
  unfoldable pub serialize_sized_at : A → List ℕ
  serialize_sized_at item =
      let content = sub.serialize_at item in
      (integer e w).serialize_at (length content % 256 ^ w) ++ content

  unfoldable pub deserialize_sized : List ℕ → Conversion A
  deserialize_sized buffer = do
    (u, size) ← (integer e w).deserialize buffer
    if ltb (length buffer) (u + size)
        then fail u size_err
        else add_used u (sub.deserialize (take size (drop w buffer)))

  abbrev pub sized_buffer : Converter A
  sized_buffer = record {
    min_size = w + sub.min_size;
    max_size = w + sub.max_size;
    serialize_at = serialize_sized_at;
    deserialize = deserialize_sized;
  }

-- `converter< message< N >, E >`. A message is the list of the bytes that it uses.
module _ (e : Endian) (n : ℕ) where
  unfoldable pub serialize_message_at : List ℕ → List ℕ
  serialize_message_at item = (integer e 2).serialize_at (length item % 256 ^ 2) ++ item

  unfoldable pub deserialize_message : List ℕ → Conversion (List ℕ)
  deserialize_message buffer = do
    (u, size) ← (integer e 2).deserialize buffer
    if ltb (length buffer) (u + size)
        then fail u size_err
        else if ltb n size
        then fail u bigsize_err
        else done (u + size) (take size (drop u buffer))

  abbrev pub message : Converter (List ℕ)
  message = record {
    min_size = 2;
    max_size = 2 + n;
    serialize_at = serialize_message_at;
    deserialize = deserialize_message;
  }

-- `converter< sizeless_message< N >, E >`
unfoldable pub deserialize_sizeless : ℕ → List ℕ → Conversion (List ℕ)
deserialize_sizeless n buffer =
    if ltb n (length buffer) then fail 0 bigsize_err else done (length buffer) buffer

abbrev pub sizeless_message : ℕ → Converter (List ℕ)
sizeless_message n = record {
  min_size = 0;
  max_size = n;
  serialize_at = λ item. item;
  deserialize = deserialize_sizeless n;
}

-- `converter< std::optional< T >, E >`. `buffer.first< 1 >()` is not checked: `past` is the byte
-- that stands in memory behind an empty buffer. The reader does not touch its reference when the value
-- is absent: `initial` is what the reference held before.
module _ (e : Endian) (past : ℕ) {A : Type 0} (sub : Converter A) (initial : Option A) where
  unfoldable pub serialize_optional_at : Option A → List ℕ
  serialize_optional_at none = (bounded 0 1 (integer e 1)).serialize_at 0
  serialize_optional_at (some val) =
      (bounded 0 1 (integer e 1)).serialize_at 1 ++ sub.serialize_at val

  unfoldable pub deserialize_optional : List ℕ → Conversion (Option A)
  deserialize_optional buffer = do
    (u, is_present) ← (bounded 0 1 (integer e 1)).deserialize (take 1 (buffer ++ (past ∷ [])))
    if is_present == 0
        then done u initial
        else add_used u (map_value some (sub.deserialize (drop 1 buffer)))

  abbrev pub optional : Converter (Option A)
  optional = record {
    min_size = 1;
    max_size = 1 + sub.max_size;
    serialize_at = serialize_optional_at;
    deserialize = deserialize_optional;
  }
