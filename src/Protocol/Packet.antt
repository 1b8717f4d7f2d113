-- ===== src/Protocol/Packet.antt =====
-- include/emlabcpp/protocol/packet.hpp and packet_handler.hpp: a packet is a prefix, a counted
-- payload and a checksum of all that stands before it.
pub mod Laws
use emlabcpp.Prelude.{ℕ, ◌+◌, ◌-◌, List, [], ◌++◌, length, take, drop, ◌==◌, if◌then◌else◌}
use emlabcpp.Protocol.Serializer
use emlabcpp.Protocol.Serializer.{Endian}
use emlabcpp.Protocol.Converter.{checksum_err, Converter}
use emlabcpp.Protocol.Converter.Integer.{integer}
use emlabcpp.Protocol.Converter.Range.{array}
use emlabcpp.Protocol.Converter.Framed.{sized_buffer}
use emlabcpp.Protocol.Converter.Tuple.{Fields, nil, cons, tuple}
use emlabcpp.Protocol.Handler
use emlabcpp.Protocol.Handler.{Extracted, value, error}

-- What a `packet_def` provides. The checksum is the user's function.
pub record PacketDef : Type 0 where
  pub endianess : Endian
  pub prefix : List ℕ
  pub size_size : ℕ
  pub checksum_size : ℕ
  pub get_checksum : List ℕ → ℕ

-- `std::tuple< prefix_type, value_type, checksum_type >`, as a nested pair
abbrev pub Contents : Type 0 → Type 0
Contents A = List ℕ × (A × (ℕ × Unit {0}))

module _ (d : PacketDef) {A : Type 0} (payload : Converter A) where
  abbrev pub packet_fields : Fields (Contents A)
  packet_fields = cons (array (integer d.endianess 1) (length d.prefix)) (
      cons (sized_buffer d.endianess d.size_size payload)
        (cons (integer d.endianess d.checksum_size) nil))

  abbrev pub packet : Converter (Contents A)
  packet = tuple packet_fields

  -- The checksum is zero at first, and then written over the end of the message.
  unfoldable pub serialize : A → List ℕ
  serialize val =
      let msg = Handler.serialize packet (d.prefix, (val, (0, tt))) in
      let pos = length msg - d.checksum_size in
      let chcksm = d.get_checksum (take pos msg) in
      take pos msg ++ Serializer.serialize_at d.endianess d.checksum_size (drop pos msg) chcksm

  -- the last step of `extract`
  unfoldable pub check : List ℕ → Contents A → Extracted A
  check msg (prefix, (val, (present_checksum, end))) =
      let checksum_pos = length msg - d.checksum_size in
      let calculated_checksum = d.get_checksum (take checksum_pos msg) in
      if present_checksum == calculated_checksum
      then value val
      else error (record { error_mark = checksum_err; offset = checksum_pos })

  unfoldable pub extract : List ℕ → Extracted A
  extract msg = elim (Handler.extract packet msg) [
    | value pack ↦ check msg pack
    | error err ↦ error err
  ]
