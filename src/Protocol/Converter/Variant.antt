-- ===== src/Protocol/Converter/Variant.antt =====
-- The converters of sum types: `std::variant`, which writes the index of its alternative,
-- `tag_group`, which writes the tag of it, and `group`, which writes nothing.
pub mod Laws
pub mod Groups
use emlabcpp.Prelude.{
  ℕ, zero, suc, ◌+◌, ◌%◌, List, [], ◌++◌, length, drop, true, false, ◌==◌, ◌⊎◌, inl, inr, min, max,
  ◌∷◌, Option, none, some, if◌then◌else◌,
}
use mathlib.Core.Option
use emlabcpp.Protocol.Serializer.{Endian}
use emlabcpp.Protocol.Converter.{
  undefvar_err, group_err, Conversion, done, fail, used, add_used, map_value, ◌>>=◌, Converter,
}
use emlabcpp.Protocol.Converter.Integer.{integer}
use emlabcpp.Protocol.Converter.Scalar.{tag}

-- The definitions `Ds...`, by their converters and, for a `tag_group`, their tags. The value of a
-- variant is a nested sum.
pub data Alternatives : Type 0 → Type 1 where
  only : {A : Type 0} → ℕ → Converter A → Alternatives A
  or_else : {A B : Type 0} → ℕ → Converter A → Alternatives B → Alternatives (A ⊎ B)

unfoldable pub least_size : {T : Type 0} → Alternatives T → ℕ
least_size (only id c) = c.min_size
least_size (or_else id c alts) = min c.min_size (least_size alts)

unfoldable pub greatest_size : {T : Type 0} → Alternatives T → ℕ
greatest_size (only id c) = c.max_size
greatest_size (or_else id c alts) = max c.max_size (greatest_size alts)

-- `item.index()`
unfoldable pub index : {T : Type 0} → Alternatives T → T → ℕ
index (only id c) item = 0
index (or_else id c alts) (inl item) = 0
index (or_else id c alts) (inr item) = suc (index alts item)

-- `nth_converter< I >::serialize_at` for the index I of the item
unfoldable pub serialize_content : {T : Type 0} → Alternatives T → T → List ℕ
serialize_content (only id c) item = c.serialize_at item
serialize_content (or_else id c alts) (inl item) = c.serialize_at item
serialize_content (or_else id c alts) (inr item) = serialize_content alts item

-- `def::id` for the alternative of the item, and all the tags
unfoldable pub tag_of : {T : Type 0} → Alternatives T → T → ℕ
tag_of (only id c) item = id
tag_of (or_else id c alts) (inl item) = id
tag_of (or_else id c alts) (inr item) = tag_of alts item

unfoldable pub tags : {T : Type 0} → Alternatives T → List ℕ
tags (only id c) = id ∷ []
tags (or_else id c alts) = id ∷ tags alts

-- The body of `until_index` from the index `i` on, after the `u` bytes of the index.
unfoldable pub deserialize_nth : {T : Type 0} → Alternatives T → ℕ → ℕ → ℕ → List ℕ → Conversion T
deserialize_nth (only tag_id c) i id u buffer = elim (id == i) [
  | true ↦ add_used u (c.deserialize buffer)
  | false ↦ fail 0 undefvar_err
]
deserialize_nth (or_else tag_id c alts) i id u buffer = elim (id == i) [
  | true ↦ map_value inl (add_used u (c.deserialize buffer))
  | false ↦ map_value inr (deserialize_nth alts (suc i) id u buffer)
]

-- The loop of `tag_group`; `none` if no tag is the one in the buffer.
module _ (e : Endian) (w : ℕ) where
  unfoldable pub deserialize_tagged : {T : Type 0} → Alternatives T → List ℕ → Option (Conversion T)
  deserialize_tagged (only id c) buffer = elim ((tag id (integer e w)).deserialize buffer) [
    | fail u m ↦ none
    | done u t ↦ some (add_used u (c.deserialize (drop u buffer)))
  ]
  deserialize_tagged (or_else id c alts) buffer = elim ((tag id (integer e w)).deserialize buffer) [
    | fail u m ↦ Option.map (map_value inr) (deserialize_tagged alts buffer)
    | done u t ↦ some (map_value inl (add_used u (c.deserialize (drop u buffer))))
  ]

-- The loop of `group`, which the first alternative that uses a byte ends.
unfoldable pub deserialize_first : {T : Type 0} → Alternatives T → List ℕ → Option (Conversion T)
deserialize_first (only id c) buffer =
    let res = c.deserialize buffer in if used res == 0 then none else some res
deserialize_first (or_else id c alts) buffer =
    let res = c.deserialize buffer in
    let later = Option.map (map_value inr) (deserialize_first alts buffer) in
    if used res == 0 then later else some (map_value inl res)

module _ (e : Endian) {T : Type 0} (alts : Alternatives T) where
  unfoldable pub serialize_variant_at : T → List ℕ
  serialize_variant_at item =
      (integer e 1).serialize_at (index alts item % 256) ++ serialize_content alts item

  unfoldable pub deserialize_variant : List ℕ → Conversion T
  deserialize_variant buffer = do
    (u, id) ← (integer e 1).deserialize buffer
    deserialize_nth alts 0 id u (drop 1 buffer)

  abbrev pub variant : Converter T
  variant = record {
    min_size = 1 + least_size alts;
    max_size = 1 + greatest_size alts;
    serialize_at = serialize_variant_at;
    deserialize = deserialize_variant;
  }

-- `converter< tag_group< Ds... >, E >`, for tags of `w` bytes. The reference that it writes to holds
-- `initial` before; without a match the result is the default one, which has no error.
module _ (e : Endian) (w : ℕ) {T : Type 0} (alts : Alternatives T) (initial : T) where
  unfoldable pub serialize_tag_group_at : T → List ℕ
  serialize_tag_group_at item =
      (tag (tag_of alts item) (integer e w)).serialize_at tt ++ serialize_content alts item

  unfoldable pub deserialize_tag_group : List ℕ → Conversion T
  deserialize_tag_group buffer = elim (deserialize_tagged e w alts buffer) [
    | none ↦ done 0 initial
    | some res ↦ res
  ]

  abbrev pub tag_group : Converter T
  tag_group = record {
    min_size = w + least_size alts;
    max_size = w + greatest_size alts;
    serialize_at = serialize_tag_group_at;
    deserialize = deserialize_tag_group;
  }

-- `converter< group< Ds... >, E >`
module _ {T : Type 0} (alts : Alternatives T) where
  unfoldable pub deserialize_group : List ℕ → Conversion T
  deserialize_group buffer = elim (deserialize_first alts buffer) [
    | none ↦ fail 0 group_err
    | some res ↦ res
  ]

  abbrev pub group : Converter T
  group = record {
    min_size = least_size alts;
    max_size = greatest_size alts;
    serialize_at = serialize_content alts;
    deserialize = deserialize_group;
  }
