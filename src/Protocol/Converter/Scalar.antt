-- ===== src/Protocol/Converter/Scalar.antt =====
-- The converters that wrap one other converter or a fixed number of bytes: `bool`, `std::monostate`,
-- `value_offset`, `bounded`, `tag`, `quantity` and what is taken apart by `decompose`.
pub mod Laws
use emlabcpp.Prelude.{
  ℕ, zero, suc, ◌+◌, ◌-◌, ◌%◌, ◌^◌, List, [], ◌∷◌, length, take, Bool, Option, none, some, ltb,
  ◌==◌, if◌then◌else◌,
}
use emlabcpp.Protocol.Serializer.{serialize_bool_at, deserialize_bool}
use emlabcpp.Protocol.Converter.{
  size_err, bounds_err, badval_err, Conversion, done, fail, map_value, ◌>>=◌, Converter,
}

-- `converter< bool, E >`
unfoldable pub deserialize_flag : List ℕ → Conversion Bool
deserialize_flag buffer =
    if ltb (length buffer) 1 then fail 0 size_err else done 1 (deserialize_bool (take 1 buffer))

abbrev pub flag : Converter Bool
flag = record {
  min_size = 1;
  max_size = 1;
  serialize_at = λ v. serialize_bool_at v (0 ∷ []);
  deserialize = deserialize_flag;
}

-- `converter< std::monostate, E >`
abbrev pub monostate : Converter (Unit {0})
monostate = record {
  min_size = 0;
  max_size = 0;
  serialize_at = λ _. [];
  deserialize = λ _. done 0 tt;
}

-- `converter< value_offset< D, Offset >, E >`, for a value type of `w` bytes, whose sums and
-- differences wrap.
module _ (w offset : ℕ) (sub : Converter ℕ) where
  abbrev pub value_offset : Converter ℕ
  value_offset = record {
    min_size = sub.min_size;
    max_size = sub.max_size;
    serialize_at = λ item. sub.serialize_at ((item + offset) % 256 ^ w);
    deserialize = λ buffer.
        map_value (λ value. (value + 256 ^ w - offset) % 256 ^ w) (sub.deserialize buffer);
  }

-- `bounded::make` of bounded.hpp
unfoldable pub make : ℕ → ℕ → ℕ → Option ℕ
make min_val max_val val =
    if ltb val min_val then none else if ltb max_val val then none else some val

-- `converter< bounded< D, Min, Max >, E >`
module _ (min_val max_val : ℕ) (sub : Converter ℕ) where
  unfoldable pub deserialize_bounded : List ℕ → Conversion ℕ
  unfolding make
  deserialize_bounded buffer = do
    (u, sub_val) ← sub.deserialize buffer
    elim (make min_val max_val sub_val) [ none ↦ fail 0 bounds_err | some value ↦ done u value ]

  abbrev pub bounded : Converter ℕ
  bounded = record {
    min_size = sub.min_size;
    max_size = sub.max_size;
    serialize_at = sub.serialize_at;
    deserialize = deserialize_bounded;
  }

-- `converter< tag< V >, E >`
module _ (v : ℕ) (sub : Converter ℕ) where
  unfoldable pub deserialize_tag : List ℕ → Conversion (Unit {0})
  deserialize_tag buffer = do
    (u, val) ← sub.deserialize buffer
    if val == v then done u tt else fail 0 badval_err

  abbrev pub tag : Converter (Unit {0})
  tag = record {
    min_size = sub.min_size;
    max_size = sub.max_size;
    serialize_at = λ _. sub.serialize_at v;
    deserialize = deserialize_tag;
  }

-- A `quantity` holds a value of its inner type, `*item`.
pub record Quantity (A : Type 0) : Type 0 where
  pub value : A

-- `converter< D, E >` for a D derived from `quantity`
abbrev pub quantity : {A : Type 0} → Converter A → Converter (Quantity A)
quantity sub = record {
  min_size = sub.min_size;
  max_size = sub.max_size;
  serialize_at = λ item. sub.serialize_at item.value;
  deserialize = λ buffer. map_value (λ val. record { value = val }) (sub.deserialize buffer);
}

-- `backup_converter< T, E >`: a structure through the tuple of its members
module _ {A T : Type 0} (decompose : T → A) (compose : A → T) (sub : Converter A) where
  abbrev pub decomposed : Converter T
  decomposed = record {
    min_size = sub.min_size;
    max_size = sub.max_size;
    serialize_at = λ item. sub.serialize_at (decompose item);
    deserialize = λ buffer. map_value compose (sub.deserialize buffer);
  }
