-- ===== src/Protocol/Packet/Laws.antt =====
-- packet_handler.hpp: `extract` on what `serialize` made, and on any message.
use emlabcpp.Prelude.{
  ℕ, ◌-◌, ◌^◌, ◌<◌, ◌≡◌, refl, ap, ◌∙◌, arith, List, ◌++◌, append-nil, append_assoc, length,
  length-append, take, drop, take-append, drop-append, All, ==_iff,
}
use emlabcpp.Protocol.Serializer.Bytes.{IsByte, serialize_at-bytes}
use emlabcpp.Protocol.Converter.{Converter, IsConverter, Anything, Nothing}
use emlabcpp.Protocol.Converter.Integer.{
  integer, Fits, integer-IsConverter, length-serialize_at, serialize_at-digits,
}
use emlabcpp.Protocol.Converter.Range.{serialize_range}
use emlabcpp.Protocol.Converter.Range.Containers.{IsArray, array-IsConverter}
use emlabcpp.Protocol.Converter.Framed.{serialize_sized_at}
use emlabcpp.Protocol.Converter.Framed.Laws.{sized-IsConverter}
use emlabcpp.Protocol.Converter.Tuple.{serialize_tuple}
use emlabcpp.Protocol.Converter.Tuple.Laws.{AreFields, empty, field, tuple-IsConverter}
use emlabcpp.Protocol.Handler
use emlabcpp.Protocol.Handler.{Extracted, value, error, IsExtracted, extract-IsExtracted}
use emlabcpp.Protocol.Packet.{PacketDef, Contents, packet_fields, packet, serialize, check, extract}

-- The definition fits its parts: the prefix holds bytes, the counter can hold the size of the
-- payload, and the checksum fits its type.
pub record IsPacketDef (d : PacketDef) {A : Type 0} (payload : Converter A) : Type 0 where
  pub prefix_bytes : All (Fits 1) d.prefix
  pub size_fits : payload.max_size < 256 ^ d.size_size
  pub checksum_fits : (area : List ℕ) → d.get_checksum area < 256 ^ d.checksum_size

split_end :
    (xs ys : List ℕ) (k : ℕ)
    → length ys ≡ k
    → (take (length (xs ++ ys) - k) (xs ++ ys) ≡ xs)
      × (drop (length (xs ++ ys) - k) (xs ++ ys) ≡ ys)
split_end xs ys k h =
    let pos : length (xs ++ ys) - k ≡ length xs = omega (arith, length-append xs ys) in
    (rw pos (take-append xs ys), rw pos (drop-append xs ys))

module _ {d : PacketDef} {A : Type 0} {payload : Converter A} {V : A → Type 0}
    (law : IsConverter payload V Nothing) (ok : IsPacketDef d payload) where
  pub packet-AreFields : AreFields Anything (Contents A) (packet_fields d payload) (λ t.
      IsArray (Fits 1) (length d.prefix) t.0
      × (V t.1.0 × (Fits d.checksum_size t.1.1.0 × Unit {0})))
  packet-AreFields =
      field (array-IsConverter (integer-IsConverter d.endianess 1) (length d.prefix))
        (λ w rest h r. tt)
        (field (sized-IsConverter d.endianess d.size_size law ok.size_fits) (λ w rest h r. tt)
          (field (integer-IsConverter d.endianess d.checksum_size) (λ w rest h r. tt) empty))

  -- the prefix and the counted payload, which the checksum is of
  unfoldable pub area : A → List ℕ
  area val =
      serialize_range (integer d.endianess 1) d.prefix
      ++ serialize_sized_at d.endianess d.size_size payload val

  pub fields-area :
      (val : A) (chcksm : ℕ)
      → Handler.serialize (packet d payload) (d.prefix, (val, (chcksm, tt)))
        ≡ area val ++ (integer d.endianess d.checksum_size).serialize_at chcksm
  unfolding serialize_tuple area
  fields-area val chcksm =
      Handler.serialize-serialize_at (packet d payload) (d.prefix, (val, (chcksm, tt)))
      ∙ rw (append-nil, append_assoc)

  pub serialize-area :
      (val : A)
      → serialize d payload val
        ≡ area val ++ (integer d.endianess d.checksum_size).serialize_at (d.get_checksum (area val))
  unfolding serialize
  serialize-area val =
      let k = d.checksum_size in
      let zeros = (integer d.endianess k).serialize_at 0 in
      let chcksm = d.get_checksum (area val) in
      let wide : length zeros ≡ k = length-serialize_at d.endianess k 0 in
      let (front, back) = split_end (area val) zeros k wide in
      rw (
        fields-area val 0,
        front,
        back,
        serialize_at-bytes d.endianess k chcksm zeros wide,
        serialize_at-digits d.endianess k chcksm,
      )

  extract_step :
      (msg : List ℕ) (pack : Contents A)
      → Handler.extract (packet d payload) msg ≡ value pack
      → extract d payload msg ≡ check d payload msg pack
  unfolding extract
  extract_step msg pack h = rw (h, extract)

  check_passes :
      (msg front prefix : List ℕ) (val : A)
      → take (length msg - d.checksum_size) msg ≡ front
      → check d payload msg (prefix, (val, (d.get_checksum front, tt))) ≡ value val
  unfolding check
  check_passes msg front prefix val h = rw (h, (==_iff (d.get_checksum front) _).1 refl)

  -- For a payload converter that fulfils its contract with nothing behind the value, and a packet
  -- definition whose prefix holds bytes, whose counter can hold the size of the payload and whose
  -- checksum fits its type, a valid value that is serialized into a packet is extracted from that
  -- packet again.
  pub extract-serialize_packet :
      (val : A) → V val → extract d payload (serialize d payload val) ≡ value val
  extract-serialize_packet val h =
      let k = d.checksum_size in
      let chcksm = d.get_checksum (area val) in
      let end = (integer d.endianess k).serialize_at chcksm in
      let msg = area val ++ end in
      let (front, back) = split_end (area val) end k (length-serialize_at d.endianess k chcksm) in
      let contents : Contents A = (d.prefix, (val, (chcksm, tt))) in
      let read : Handler.extract (packet d payload) msg ≡ value contents =
        (rw (fields-area val chcksm) at
          (Handler.extract-serialize (tuple-IsConverter packet-AreFields) contents
            ((refl, ok.prefix_bytes), (h, (ok.checksum_fits (area val), tt))) tt).3) in
      ap (extract d payload) (serialize-area val)
      ∙ extract_step msg contents read
      ∙ check_passes msg (area val) d.prefix val front

  -- what came through the last step of `extract`
  checked :
      (msg : List ℕ) (val : A) (r : Extracted (Contents A))
      → ◌≡◌ {A = Extracted A}
          (elim r [ value pack ↦ check d payload msg pack | error err ↦ error err ])
          (value val)
      → (prefix : List ℕ) × (r
          ≡ value (prefix, (val, (d.get_checksum (take (length msg - d.checksum_size) msg), tt))))
  unfolding check
  checked msg val (value (prefix, (v, (present, end)))) e =
      let calculated = d.get_checksum (take (length msg - d.checksum_size) msg) in
      let same : (v ≡ val) × (present ≡ calculated) = ground arith in (prefix, rw (same.0, same.1))
  checked msg val (error err) e = cc

  -- For a payload converter that fulfils its contract with nothing behind the value, and a packet
  -- definition whose prefix holds bytes, whose counter can hold the size of the payload and whose
  -- checksum fits its type: if a message of bytes is extracted to a value, the value is valid and
  -- the message converts to contents with that value and with the checksum of all bytes of the
  -- message before the last `checksum_size` ones.
  pub extract-value :
      (msg : List ℕ) (val : A)
      → All IsByte msg
      → extract d payload msg ≡ value val
      → V val
        × (prefix : List ℕ) × (Handler.extract (packet d payload) msg
            ≡ value (prefix, (val, (d.get_checksum (take (length msg - d.checksum_size) msg), tt))))
  unfolding extract
  extract-value msg val bs e =
      let (prefix, read) = checked msg val (Handler.extract (packet d payload) msg) e in
      let valid = extract-IsExtracted (tuple-IsConverter packet-AreFields) msg bs in
      ((rw (read, IsExtracted) at valid).1.0, prefix, read)
