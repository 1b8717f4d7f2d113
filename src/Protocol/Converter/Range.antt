-- ===== src/Protocol/Converter/Range.antt =====
-- `serialize_range` and `deserialize_range`, and the converters that are built on them:
-- `converter< std::array< D, N >, E >` and `converter< static_vector< T, N >, E >`.
pub mod Laws
pub mod Containers
use emlabcpp.Prelude.{
  ℕ, zero, suc, ◌+◌, ◌-◌, ◌*◌, List, [], ◌∷◌, ◌++◌, length, drop, ltb, true, false, min,
}
use emlabcpp.Protocol.Serializer.{Endian}
use emlabcpp.Protocol.Converter.{
  size_err, Conversion, done, fail, add_used, map_value, ◌>>=◌, Converter,
}
use emlabcpp.Protocol.Converter.Integer.{integer}

module _ {A : Type 0} (sub : Converter A) where
  -- Each item is written where the one before it ended.
  unfoldable pub serialize_range : List A → List ℕ
  serialize_range [] = []
  serialize_range (item ∷ rest) = sub.serialize_at item ++ serialize_range rest

  -- The loop with `k` items left to read.
  unfoldable pub deserialize_range : List ℕ → ℕ → ℕ → Conversion (List A)
  deserialize_range buffer zero offset = done offset []
  deserialize_range buffer (suc k) offset = elim (ltb (length buffer) offset) [
    | true ↦ fail offset size_err
    | false ↦ elim (sub.deserialize (drop offset buffer)) [
      | fail u m ↦ fail (u + offset) m
      | done u v ↦ map_value (λ vs. v ∷ vs) (deserialize_range buffer k (offset + u))
    ]
  ]

  abbrev pub array : ℕ → Converter (List A)
  array n = record {
    min_size = sub.min_size * n;
    max_size = sub.max_size * n;
    serialize_at = serialize_range;
    deserialize = λ buffer. deserialize_range buffer n 0;
  }

module _ (e : Endian) {A : Type 0} (sub : Converter A) where
  -- The counter is a `uint16_t`.
  unfoldable pub serialize_vector_at : List A → List ℕ
  serialize_vector_at item = (integer e 2).serialize_at (length item) ++ serialize_range sub item

  -- The value is empty at first, so the `while` loop leaves it with `min count n` items to read.
  unfoldable pub deserialize_vector : ℕ → List ℕ → Conversion (List A)
  deserialize_vector n buffer = do
    (u, count) ← (integer e 2).deserialize buffer
    add_used 2 (deserialize_range sub (drop 2 buffer) (min count n) 0)

  abbrev pub vector : ℕ → Converter (List A)
  vector n = record {
    min_size = 2;
    max_size = 2 + sub.max_size * n;
    serialize_at = serialize_vector_at;
    deserialize = deserialize_vector n;
  }
