-- ===== src/Protocol/Tests.antt =====
-- Concrete runs of the protocol library, and its theorems at concrete definitions.
use emlabcpp.Prelude.{
  ℕ, ◌+◌, ◌<◌, ◌≡◌, refl, arith, List, [], ◌∷◌, ◌++◌, length, ◌⊎◌, inl, inr, none, some, ◌%◌, ◌-◌,
  take,
}
use emlabcpp.Protocol.Serializer
use emlabcpp.Protocol.Serializer.{Endian, big, little}
use emlabcpp.Protocol.Converter.{done, fail, Converter, IsConverter, Anything, Nothing, size_err}
use emlabcpp.Protocol.Converter.Integer
use emlabcpp.Protocol.Converter.Integer.{integer, Fits, integer-IsConverter}
use emlabcpp.Protocol.Converter.Range.{
  vector, serialize_range, deserialize_range, serialize_vector_at, deserialize_vector,
}
use emlabcpp.Protocol.Converter.Range.Containers.{IsVector, vector-IsConverter}
use emlabcpp.Protocol.Converter.Scalar.{bounded, deserialize_bounded}
use emlabcpp.Protocol.Converter.Scalar.Laws.{Within, bounded-IsConverter}
use emlabcpp.Protocol.Converter.Framed.{
  message, sizeless_message, optional, serialize_sized_at, deserialize_sized, deserialize_sizeless,
}
use emlabcpp.Protocol.Converter.Framed.Laws.{IsMessage, message-IsConverter, sizeless-IsConverter}
use emlabcpp.Protocol.Converter.Framed.Optional.{optional-kept}
use emlabcpp.Protocol.Converter.Tuple.{nil, cons, tuple, deserialize_tuple, serialize_tuple}
use emlabcpp.Protocol.Converter.Tuple.Laws.{empty, field, tuple-IsConverter}
use emlabcpp.Protocol.Converter.Variant.{
  Alternatives, only, or_else, variant, tag_group, group, tags, serialize_content,
}
use emlabcpp.Protocol.Converter.Variant.Laws.{
  AreAlternatives, sole, more, Either, count, variant-IsConverter,
}
use emlabcpp.Protocol.Converter.Variant.Groups.{
  tag_group_round_trip, tag_group_unknown, Skips, group_round_trip,
}
use emlabcpp.Protocol.Converter.Text.{
  serialize_string_at, deserialize_string, array_of, string_round_trip, Report, serialize_report_at,
  deserialize_report, report_used,
}
use emlabcpp.Prelude.{replicate}
use emlabcpp.Protocol.Handler
use emlabcpp.Protocol.Handler.{value, error}
use emlabcpp.Protocol.Packet
use emlabcpp.Protocol.Packet.{PacketDef, packet}
use emlabcpp.Protocol.Packet.Laws.{IsPacketDef, extract-serialize_packet, extract-value}

abbrev u8 : Converter ℕ
u8 = integer big 1

abbrev u16 : Converter ℕ
u16 = integer big 2

u16_bytes : u16.serialize_at 0x0102 ≡ 1 ∷ 2 ∷ []
unfolding Integer.serialize_at Serializer.serialize_at
u16_bytes = refl

little_bytes : (integer little 2).serialize_at 0x0102 ≡ 2 ∷ 1 ∷ []
unfolding Integer.serialize_at Serializer.serialize_at
little_bytes = refl

vector_bytes : (vector big u8 4).serialize_at (7 ∷ 8 ∷ []) ≡ 0 ∷ 2 ∷ 7 ∷ 8 ∷ []
unfolding serialize_vector_at serialize_range Integer.serialize_at Serializer.serialize_at
vector_bytes = refl

-- A counter above the capacity is cut to it, and the bytes behind are left.
vector_cut : (vector big u8 1).deserialize (0 ∷ 2 ∷ 7 ∷ 8 ∷ []) ≡ done 3 (7 ∷ [])
unfolding deserialize_vector deserialize_range Integer.deserialize Serializer.deserialize
vector_cut = refl

tuple_short : (tuple (cons u8 (cons u16 nil))).deserialize (1 ∷ 2 ∷ []) ≡ fail 1 size_err
unfolding deserialize_tuple Integer.deserialize Serializer.deserialize
tuple_short = refl

integer-IsConverter_example : IsConverter u16 (Fits 2) Anything
integer-IsConverter_example = integer-IsConverter big 2

vector-IsConverter_example : IsConverter (vector big u8 4) (IsVector (Fits 1) 4) Anything
vector-IsConverter_example = vector-IsConverter (integer-IsConverter big 1) big 4 (omega arith)

bounded-IsConverter_example : IsConverter (bounded 3 9 u8) (Within 3 9 (Fits 1)) Anything
bounded-IsConverter_example = bounded-IsConverter 3 9 (integer-IsConverter big 1)

optional-kept_example :
    (optional big 0 u8 (some 9)).deserialize
      ((optional big 0 u8 (some 9)).serialize_at none ++ (6 ∷ []))
    ≡ done (length ((optional big 0 u8 (some 9)).serialize_at none)) (some 9)
optional-kept_example = optional-kept big 0 (integer-IsConverter big 1) (some 9) none (6 ∷ []) tt

tuple-IsConverter_example :
    IsConverter
      (tuple (cons u8 (cons (sizeless_message 8) nil)))
      (λ t. Fits 1 t.0 × (IsMessage 8 t.1.0 × Unit {0}))
      Nothing
unfolding serialize_tuple
tuple-IsConverter_example = tuple-IsConverter (
    field (integer-IsConverter big 1) (λ w rest h r. tt)
      (field (sizeless-IsConverter 8) (λ w rest h r. r) empty))

abbrev number_or_message : Alternatives (ℕ ⊎ List ℕ)
number_or_message = or_else 1 u16 (only 2 (message big 8))

abbrev are_lawful :
    AreAlternatives Anything (ℕ ⊎ List ℕ) number_or_message (Either (Fits 2) (IsMessage 8))
are_lawful = more (integer-IsConverter big 2) (sole (message-IsConverter big 8 (omega arith)))

variant-IsConverter_example :
    IsConverter (variant big number_or_message) (Either (Fits 2) (IsMessage 8)) Anything
unfolding count
variant-IsConverter_example = variant-IsConverter big are_lawful (omega arith)

tag_group_round_trip_example :
    (tag_group big 1 number_or_message (inl 0)).deserialize
      ((tag_group big 1 number_or_message (inl 0)).serialize_at (inr (7 ∷ [])) ++ [])
    ≡ done
        (length ((tag_group big 1 number_or_message (inl 0)).serialize_at (inr (7 ∷ []))))
        (inr (7 ∷ []))
unfolding tags
tag_group_round_trip_example =
    tag_group_round_trip big 1 number_or_message (inl 0) (inr (7 ∷ [])) [] are_lawful (omega arith)
      (omega arith) tt

tag_group_unknown_example :
    (tag_group big 1 number_or_message (inl 0)).deserialize (u8.serialize_at 3 ++ (0 ∷ 0 ∷ []))
    ≡ done 0 (inl 0)
unfolding tags
tag_group_unknown_example =
    tag_group_unknown big 1 number_or_message (inl 0) 3 (0 ∷ 0 ∷ []) (omega arith) (omega arith)

-- A bounded number, and any number where the first alternative does not fit.
abbrev small_or_any : Alternatives (ℕ ⊎ ℕ)
small_or_any = or_else 1 (bounded 0 9 u8) (only 2 u8)

group_round_trip_example :
    (group small_or_any).deserialize ((group small_or_any).serialize_at (inr 20) ++ [])
    ≡ done (length ((group small_or_any).serialize_at (inr 20))) (inr 20)
unfolding Skips serialize_content deserialize_bounded Integer.deserialize Integer.serialize_at
    Serializer.serialize_at Serializer.deserialize
group_round_trip_example =
    group_round_trip
      (more (bounded-IsConverter 0 9 (integer-IsConverter big 1))
        (sole (integer-IsConverter big 1)))
      (inr 20) [] (omega arith) tt (omega arith) (omega arith)

-- A prefix of two bytes, a counter of one byte, and a sum of the bytes as the checksum.
abbrev sum_mod : List ℕ → ℕ
sum_mod [] = 0
sum_mod (b ∷ bs) = (b + sum_mod bs) % 256

sum_mod-lt : (bs : List ℕ) → sum_mod bs < 256
sum_mod-lt [] = omega arith
sum_mod-lt (b ∷ bs) = omega arith

abbrev pub radio : PacketDef
radio = record {
  endianess = big;
  prefix = 0x91 ∷ 0x19 ∷ [];
  size_size = 1;
  checksum_size = 1;
  get_checksum = sum_mod;
}

pub radio-IsPacketDef : IsPacketDef radio (sizeless_message 16)
radio-IsPacketDef = record {
  prefix_bytes = omega arith;
  size_fits = omega arith;
  checksum_fits = sum_mod-lt;
}

radio_packet :
    Packet.serialize radio (sizeless_message 16) (5 ∷ 6 ∷ []) ≡ 0x91 ∷ 0x19 ∷ 2 ∷ 5 ∷ 6 ∷ 183 ∷ []
unfolding Packet.serialize Handler.serialize serialize_tuple serialize_range serialize_sized_at
    Integer.serialize_at Serializer.serialize_at
radio_packet = refl

extract-serialize_packet_example :
    Packet.extract radio
      (sizeless_message 16)
      (Packet.serialize radio (sizeless_message 16) (5 ∷ 6 ∷ []))
    ≡ value (5 ∷ 6 ∷ [])
extract-serialize_packet_example =
    extract-serialize_packet (sizeless-IsConverter 16) radio-IsPacketDef (5 ∷ 6 ∷ []) (omega arith)

radio_read :
    Packet.extract radio (sizeless_message 16) (0x91 ∷ 0x19 ∷ 1 ∷ 5 ∷ 176 ∷ []) ≡ value (5 ∷ [])
unfolding Packet.extract Packet.check Handler.extract deserialize_tuple deserialize_range
    deserialize_sized deserialize_sizeless Integer.deserialize Serializer.deserialize
radio_read = refl

extract-value_example :
    IsMessage 16 (5 ∷ [])
    × (prefix : List ℕ) × (Handler.extract
          (packet radio (sizeless_message 16))
          (0x91 ∷ 0x19 ∷ 1 ∷ 5 ∷ 176 ∷ [])
        ≡ value (prefix, (5 ∷ [], (sum_mod (take (5 - 1) (0x91 ∷ 0x19 ∷ 1 ∷ 5 ∷ 176 ∷ [])), tt))))
extract-value_example =
    extract-value (sizeless-IsConverter 16) radio-IsPacketDef (0x91 ∷ 0x19 ∷ 1 ∷ 5 ∷ 176 ∷ [])
      (5 ∷ []) (omega arith) radio_read

string_round_trip_example :
    deserialize_string big 4
      (replicate 4 0)
      (serialize_string_at big 4 (array_of 4 (72 ∷ 105 ∷ [])) ++ (9 ∷ []))
    ≡ done
        (length (serialize_string_at big 4 (array_of 4 (72 ∷ 105 ∷ []))))
        (array_of 4 (72 ∷ 105 ∷ []))
string_round_trip_example =
    string_round_trip big 4 (72 ∷ 105 ∷ []) (9 ∷ [])
      ((λ (h : 72 ≡ 0). omega arith), ((λ (h : 105 ≡ 0). omega arith), tt)) (omega arith)
      (omega arith)

-- a report on the byte 7 under a mark of one letter
abbrev report : Report
report = record { error_mark = array_of 16 (65 ∷ []); offset = 7 }

abbrev report_bytes : List ℕ
report_bytes = 0 ∷ 1 ∷ 65 ∷ (replicate 22 0 ++ (7 ∷ []))

report_read : deserialize_report big (replicate 16 0) report_bytes ≡ some (done 8 report)
unfolding deserialize_report deserialize_string Integer.deserialize Serializer.deserialize
report_read = refl

report_used_example :
    (length (serialize_report_at big (replicate 26 0) report) ≡ 26) × (◌≡◌ {A = ℕ} 8 8)
report_used_example =
    report_used big (replicate 26 0) (replicate 16 0) report_bytes report report 8 (omega arith)
      refl report_read
