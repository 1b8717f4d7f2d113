-- ===== src/Protocol/Sequencer/Packets.antt =====
-- `packet::sequencer_def` of include/emlabcpp/protocol/packet.hpp: packets out of a stream of bytes.
use emlabcpp.Prelude.{
  ℕ, ◌+◌, ◌%◌, ◌^◌, ◌≤◌, ◌<◌, ◌≡◌, refl, sym, ap, ◌∙◌, arith, List, [], ◌∷◌, ◌++◌, append_assoc,
  length, length-append, take, drop, take-append, drop-append, replicate, length-replicate, All,
  subst,
}
use native.Mathlib.Nat.{mod-eq_of_lt}
use emlabcpp.Protocol.Serializer
use emlabcpp.Protocol.Serializer.{Endian, big, little}
use emlabcpp.Protocol.Serializer.Bytes.{be_bytes, le_bytes}
use emlabcpp.Protocol.Serializer.RoundTrip.{deserialize-serialize_at}
use emlabcpp.Protocol.Converter.{Converter, IsConverter, Nothing}
use emlabcpp.Protocol.Converter.Integer
use emlabcpp.Protocol.Converter.Integer.{integer, Fits, length-serialize_at, serialize_at-digits}
use emlabcpp.Protocol.Converter.Range.{serialize_range}
use emlabcpp.Protocol.Converter.Framed.{serialize_sized_at}
use emlabcpp.Protocol.Converter.Tuple.Laws.{tuple-IsConverter}
use emlabcpp.Protocol.Handler
use emlabcpp.Protocol.Handler.{value}
use emlabcpp.Protocol.Packet.{PacketDef, Contents, packet, serialize, extract}
use emlabcpp.Protocol.Packet.Laws.{
  IsPacketDef, packet-AreFields, area, fields-area, serialize-area, extract-serialize_packet,
}
use emlabcpp.CircularBuffer.{Buffer}
use emlabcpp.CircularBuffer.Indexing.{Indices, Strategy, IsStrategy}
use emlabcpp.CircularBuffer.Refine.{Holds}
use emlabcpp.Protocol.Sequencer.{SequencerDef, framed, get_message}
use emlabcpp.Protocol.Sequencer.Resync.{Noise, get_message_found}

module _ (d : PacketDef) {A : Type 0} (payload : Converter A) where
  unfoldable pub get_size : List ℕ → ℕ
  get_size buffer =
      let prefix_size = length d.prefix in
      let fixed_size = prefix_size + d.size_size in
      let tmp = take d.size_size (drop prefix_size buffer) in
      Serializer.deserialize d.endianess d.size_size tmp + fixed_size + d.checksum_size

  abbrev pub sequencer_def : SequencerDef
  sequencer_def = record {
    prefix = d.prefix;
    fixed_size = length d.prefix + d.size_size;
    capacity = (packet d payload).max_size;
    get_size = get_size;
  }

byte_alone : (e : Endian) (x : ℕ) → x < 256 → (integer e 1).serialize_at x ≡ x ∷ []
unfolding be_bytes le_bytes
byte_alone big x h = serialize_at-digits big 1 x ∙ ap (λ (b : ℕ). b ∷ []) (mod-eq_of_lt h)
byte_alone little x h = serialize_at-digits little 1 x ∙ ap (λ (b : ℕ). b ∷ []) (mod-eq_of_lt h)

range_bytes : (e : Endian) (xs : List ℕ) → All (Fits 1) xs → serialize_range (integer e 1) xs ≡ xs
unfolding serialize_range
range_bytes e [] h = refl
range_bytes e (x ∷ xs) h = rw (byte_alone e x (omega (arith, h.0)), range_bytes e xs h.1) refl

module _ {d : PacketDef} {A : Type 0} {payload : Converter A} {V : A → Type 0}
    (law : IsConverter payload V Nothing) (ok : IsPacketDef d payload) where
  -- the packet behind its prefix
  body : A → List ℕ
  body val =
      serialize_sized_at d.endianess d.size_size payload val
      ++ (integer d.endianess d.checksum_size).serialize_at (d.get_checksum (area law ok val))

  serialize-body : (val : A) → serialize d payload val ≡ d.prefix ++ body val
  unfolding body area
  serialize-body val =
      serialize-area law ok val
      ∙ rw (range_bytes d.endianess d.prefix ok.prefix_bytes, append_assoc) refl

  packet_fits : (val : A) → V val → length (serialize d payload val) ≤ (packet d payload).max_size
  packet_fits val h =
      let contents : Contents A = (d.prefix, (val, (d.get_checksum (area law ok val), tt))) in
      let same =
        serialize-area law ok val
        ∙ sym (fields-area law ok val (d.get_checksum (area law ok val))) in
      subst (λ (msg : List ℕ). length msg ≤ (packet d payload).max_size) (sym same)
        (Handler.extract-serialize (tuple-IsConverter (packet-AreFields law ok)) contents
          ((refl, ok.prefix_bytes), (h, (ok.checksum_fits (area law ok val), tt))) tt).1

  get_size-body :
      (val : A) (rest : List ℕ)
      → V val
      → (get_size d payload (d.prefix ++ (body val ++ rest)) ≡ length (d.prefix ++ body val))
        × (length d.prefix + d.size_size ≤ length (d.prefix ++ body val))
  unfolding get_size body serialize_sized_at Integer.serialize_at
  get_size-body val rest h =
      let w = d.size_size in
      let e = d.endianess in
      let content = payload.serialize_at val in
      let small : length content < 256 ^ w = omega (arith, law.fits val h, ok.size_fits) in
      let size = length content % 256 ^ w in
      let plain : size ≡ length content = mod-eq_of_lt small in
      let head = (integer e w).serialize_at size in
      let wide : length head ≡ w = length-serialize_at e w size in
      let chk = (integer e d.checksum_size).serialize_at (d.get_checksum (area law ok val)) in
      let tail = content ++ (chk ++ rest) in
      let inner : drop (length d.prefix) (d.prefix ++ (((head ++ content) ++ chk) ++ rest))
          ≡ head ++ tail =
        drop-append d.prefix (((head ++ content) ++ chk) ++ rest)
        ∙ append_assoc (head ++ content) chk rest
        ∙ append_assoc head content (chk ++ rest) in
      let front : take w (head ++ tail) ≡ head = rw wide at (take-append head tail) in
      let read : Serializer.deserialize e w head ≡ length content =
        deserialize-serialize_at e w size (replicate w 0) (length-replicate w 0)
          (omega (arith, plain))
        ∙ plain in
      let total : length (d.prefix ++ ((head ++ content) ++ chk))
          ≡ length d.prefix + (w + length content + d.checksum_size) =
        omega (
          arith,
          wide,
          length-append d.prefix ((head ++ content) ++ chk),
          length-append (head ++ content) chk,
          length-append head content,
          length-serialize_at e d.checksum_size (d.get_checksum (area law ok val)),
        ) in
      (rw (inner, front, read) (omega (arith, total)), omega (arith, total))

  module _ {s : Strategy} {n : ℕ} {Valid : Indices → Type 0} (strategy : IsStrategy s n Valid) where
    -- For a payload converter that fulfils its contract with nothing behind the value, a packet
    -- definition whose prefix holds bytes, at least one, whose counter can hold the size of the
    -- payload and whose checksum fits its type, and a strategy that keeps what the buffer relies
    -- on: if the buffer holds noise, the packet of a valid value and further bytes, with a slot
    -- free, `get_message` returns a message that is extracted to the value, and leaves the further
    -- bytes.
    pub get_message_packet :
        (b : Buffer ℕ) (noise rest : List ℕ) (val : A)
        → length (noise ++ (serialize d payload val ++ rest)) < s.max_size
        → Holds s Valid b (noise ++ (serialize d payload val ++ rest))
        → 0 < length d.prefix
        → Noise (sequencer_def d payload) noise (serialize d payload val ++ rest)
        → V val
        → (msg : List ℕ) × ((get_message s (sequencer_def d payload) b).0 ≡ framed msg)
          × (extract d payload msg ≡ value val)
          × Holds s Valid (get_message s (sequencer_def d payload) b).1 rest
    get_message_packet b noise rest val free h some_prefix quiet valid =
        let shape : serialize d payload val ++ rest ≡ d.prefix ++ (body val ++ rest) =
          ap (λ (msg : List ℕ). msg ++ rest) (serialize-body val)
          ∙ append_assoc d.prefix (body val) rest in
        let sizes = get_size-body val rest valid in
        let fits : length (d.prefix ++ body val) ≤ (packet d payload).max_size =
          subst (λ (msg : List ℕ). length msg ≤ (packet d payload).max_size) (serialize-body val)
            (packet_fits val valid) in
        let found =
          get_message_found strategy (sequencer_def d payload) b noise (body val) rest
            (subst (λ (t : List ℕ). length (noise ++ t) < s.max_size) shape free)
            (subst (λ (t : List ℕ). Holds s Valid b (noise ++ t)) shape h) some_prefix
            (subst (λ (t : List ℕ). Noise (sequencer_def d payload) noise t) shape quiet) sizes.1
            sizes.0 fits in
        (
          d.prefix ++ body val,
          found.0,
          subst (λ (msg : List ℕ). extract d payload msg ≡ value val) (serialize-body val)
              (extract-serialize_packet law ok val valid),
          found.1,
        )
