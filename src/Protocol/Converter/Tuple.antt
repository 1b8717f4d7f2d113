-- ===== src/Protocol/Converter/Tuple.antt =====
-- `converter< std::tuple< Ds... >, E >`: the converters of the elements, one after the other.
pub mod Laws
use emlabcpp.Prelude.{ℕ, ◌+◌, List, [], ◌++◌, length, drop, ltb, true, false}
use emlabcpp.Protocol.Converter.{
  size_err, Conversion, done, fail, add_used, map_value, ◌>>=◌, Converter,
}

-- The definitions `Ds...`, by their converters. The value of a tuple is a nested pair.
pub data Fields : Type 0 → Type 1 where
  nil : Fields (Unit {0})
  cons : {A B : Type 0} → Converter A → Fields B → Fields (A × B)

unfoldable pub tuple_min_size : {T : Type 0} → Fields T → ℕ
tuple_min_size nil = 0
tuple_min_size (cons c fs) = c.min_size + tuple_min_size fs

unfoldable pub tuple_max_size : {T : Type 0} → Fields T → ℕ
tuple_max_size nil = 0
tuple_max_size (cons c fs) = c.max_size + tuple_max_size fs

-- `for_each_index`
unfoldable pub serialize_tuple : {T : Type 0} → Fields T → T → List ℕ
serialize_tuple nil item = []
serialize_tuple (cons c fs) (item, rest) = c.serialize_at item ++ serialize_tuple fs rest

-- `until_index`, which an error stops
unfoldable pub deserialize_tuple : {T : Type 0} → Fields T → List ℕ → ℕ → Conversion T
deserialize_tuple nil buffer offset = done offset tt
deserialize_tuple (cons c fs) buffer offset = elim (ltb (length buffer) offset) [
  | true ↦ fail offset size_err
  | false ↦ do
    (u, v) ← add_used offset (c.deserialize (drop offset buffer))
    map_value (λ vs. (v, vs)) (deserialize_tuple fs buffer u)
]

abbrev pub tuple : {T : Type 0} → Fields T → Converter T
tuple fs = record {
  min_size = tuple_min_size fs;
  max_size = tuple_max_size fs;
  serialize_at = serialize_tuple fs;
  deserialize = λ buffer. deserialize_tuple fs buffer 0;
}
