-- ===== src/Protocol/Serializer.antt =====
-- include/emlabcpp/protocol/serializer.hpp: an unsigned integer of `w` bytes to a span of bytes and
-- back, in either byte order. A byte is a number below 256, an item a number below 256 ^ w.
pub mod Bytes
pub mod RoundTrip
use emlabcpp.Prelude.{ℕ, zero, suc, ◌+◌, ◌-◌, ◌*◌, ◌/◌, ◌%◌, ◌^◌, Bool, List, set, get_or}
use emlabcpp.Prelude.{◌==◌, if◌then◌else◌}

-- `std::endian`
pub data Endian : Type 0 where
  big little : Endian

-- the position in a buffer of `w` bytes that `bget( buffer, i )` refers to
unfoldable pub bget_pos : Endian → ℕ → ℕ → ℕ
bget_pos big w i = i
bget_pos little w i = w - 1 - i

-- The loop of `serialize_at` with `k` rounds left, so that `max_size - i - 1` is `k - 1`.
pub serialize_loop : Endian → ℕ → ℕ → ℕ → List ℕ → List ℕ
unfolding bget_pos
serialize_loop e w zero item buffer = buffer
serialize_loop e w (suc k) item buffer =
    serialize_loop e w k (item / 256) (set buffer (bget_pos e w k) (item % 256))

unfoldable pub serialize_at : Endian → ℕ → List ℕ → ℕ → List ℕ
unfolding serialize_loop
serialize_at e w buffer item = serialize_loop e w w item buffer

-- The loop of `deserialize` with `k` rounds left. The shift leaves the low byte of `res` zero, so
-- that the `|` is a sum.
pub deserialize_loop : Endian → ℕ → ℕ → ℕ → List ℕ → ℕ
unfolding bget_pos
deserialize_loop e w zero res buffer = res
deserialize_loop e w (suc k) res buffer =
    deserialize_loop e w k (res * 256 % 256 ^ w + get_or buffer (bget_pos e w (w - suc k)) 0) buffer

unfoldable pub deserialize : Endian → ℕ → List ℕ → ℕ
unfolding deserialize_loop
deserialize e w buffer = deserialize_loop e w w 0 buffer

-- `serializer< bool, E >`: the first byte of the buffer
unfoldable pub serialize_bool_at : Bool → List ℕ → List ℕ
serialize_bool_at v buffer = set buffer 0 (if v then 1 else 0)

unfoldable pub deserialize_bool : List ℕ → Bool
deserialize_bool buffer = get_or buffer 0 0 == 1
