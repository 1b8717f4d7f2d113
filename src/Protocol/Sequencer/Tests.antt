-- ===== src/Protocol/Sequencer/Tests.antt =====
-- The theorems on the sequencer at a stream of bytes with a packet in it.
use emlabcpp.Prelude.{ℕ, ◌+◌, ◌<◌, ◌≡◌, refl, arith, List, [], ◌∷◌, ◌++◌, length}
use emlabcpp.CircularBuffer.{Buffer, fresh}
use emlabcpp.CircularBuffer.Indexing.{Strategy, IsStrategy}
use emlabcpp.CircularBuffer.Indexing.Spacer.{spacer_strategy, spacer-IsStrategy, IsSpaced}
use emlabcpp.CircularBuffer.Refine.{Holds, fresh-Holds}
use emlabcpp.Protocol.Serializer
use emlabcpp.Protocol.Converter.Integer
use emlabcpp.Protocol.Converter.Framed.{sizeless_message, serialize_sized_at}
use emlabcpp.Protocol.Converter.Framed.Laws.{sizeless-IsConverter}
use emlabcpp.Protocol.Converter.Range.{serialize_range}
use emlabcpp.Protocol.Converter.Tuple.{serialize_tuple}
use emlabcpp.Protocol.Handler
use emlabcpp.Protocol.Handler.{value}
use emlabcpp.Protocol.Packet
use emlabcpp.Protocol.Sequencer.{
  SequencerDef, framed, overrun, insert, get_message, frame, skips, mismatch,
}
use emlabcpp.Protocol.Sequencer.Refine.{insert-Holds, get_message-frame}
use emlabcpp.Protocol.Sequencer.Resync.{Noise, get_message_found, get_message_overrun}
use emlabcpp.Protocol.Sequencer.Packets.{sequencer_def, get_message_packet}
use emlabcpp.Protocol.Tests.{radio, radio-IsPacketDef}

abbrev store : Strategy
store = spacer_strategy 40 256 2147483648

store-IsStrategy : IsStrategy store 40 (IsSpaced 40)
store-IsStrategy = spacer-IsStrategy 40 256 2147483648 (omega arith) (omega arith)

-- messages of the bytes 9 and 8, their size and what it counts, of at most 4 bytes
second : List ℕ → ℕ
second (a ∷ b ∷ c ∷ rest) = 3 + c
second bytes = 0

abbrev counted : SequencerDef
counted = record { prefix = 9 ∷ 8 ∷ []; fixed_size = 3; capacity = 4; get_size = second }

abbrev stream : List ℕ
stream = 1 ∷ 9 ∷ 7 ∷ 9 ∷ 8 ∷ 1 ∷ 5 ∷ 9 ∷ []

abbrev received : List ℕ → Buffer ℕ
received bytes = insert store counted bytes (fresh store)

received-Holds :
    (bytes : List ℕ) → length bytes < 40 → Holds store (IsSpaced 40) (received bytes) bytes
received-Holds bytes h =
    insert-Holds store-IsStrategy counted bytes (fresh store) [] (omega arith)
      (fresh-Holds store-IsStrategy)

get_message-frame_example :
    ((get_message store counted (received stream)).0 ≡ (frame counted stream).0)
    × Holds store
        (IsSpaced 40)
        (get_message store counted (received stream)).1
        (frame counted stream).1
get_message-frame_example =
    get_message-frame store-IsStrategy counted (received stream) stream (omega arith)
      (received-Holds stream (omega arith))

stream-Noise : Noise counted (1 ∷ 9 ∷ 7 ∷ []) (9 ∷ 8 ∷ 1 ∷ 5 ∷ 9 ∷ [])
unfolding skips mismatch
stream-Noise = (refl, (refl, (refl, tt)))

get_message_found_example :
    ((get_message store counted (received stream)).0 ≡ framed (9 ∷ 8 ∷ 1 ∷ 5 ∷ []))
    × Holds store (IsSpaced 40) (get_message store counted (received stream)).1 (9 ∷ [])
unfolding second
get_message_found_example =
    get_message_found store-IsStrategy counted (received stream) (1 ∷ 9 ∷ 7 ∷ []) (1 ∷ 5 ∷ [])
      (9 ∷ []) (omega arith) (received-Holds stream (omega arith)) (omega arith) stream-Noise
      (omega arith) refl (omega arith)

abbrev large : List ℕ
large = 9 ∷ 8 ∷ 3 ∷ 1 ∷ 2 ∷ 3 ∷ []

get_message_overrun_example : (get_message store counted (received large)).0 ≡ overrun 6
unfolding second
get_message_overrun_example =
    get_message_overrun store-IsStrategy counted (received large) [] (3 ∷ 1 ∷ 2 ∷ 3 ∷ [])
      (omega arith) (received-Holds large (omega arith)) (omega arith) tt (omega arith)
      (omega arith) (omega arith)

-- a packet of Protocol.Tests behind a byte of noise
abbrev radio_stream : List ℕ
radio_stream = 0x91 ∷ (Packet.serialize radio (sizeless_message 16) (5 ∷ 6 ∷ []) ++ (1 ∷ []))

abbrev radio_received : Buffer ℕ
radio_received = insert store (sequencer_def radio (sizeless_message 16)) radio_stream (fresh store)

radio_length : length radio_stream ≡ 8
unfolding Packet.serialize Handler.serialize serialize_tuple serialize_range serialize_sized_at
    Integer.serialize_at Serializer.serialize_at
radio_length = refl

radio_quiet :
    Noise
      (sequencer_def radio (sizeless_message 16))
      (0x91 ∷ [])
      (Packet.serialize radio (sizeless_message 16) (5 ∷ 6 ∷ []) ++ (1 ∷ []))
unfolding skips mismatch Packet.serialize Handler.serialize serialize_tuple serialize_range
    serialize_sized_at Integer.serialize_at Serializer.serialize_at
radio_quiet = (refl, tt)

radio_received-Holds : Holds store (IsSpaced 40) radio_received radio_stream
radio_received-Holds =
    insert-Holds store-IsStrategy (sequencer_def radio (sizeless_message 16)) radio_stream
      (fresh store) [] (omega (arith, radio_length)) (fresh-Holds store-IsStrategy)

get_message_packet_example :
    (msg : List ℕ) × ((get_message store
        (sequencer_def radio (sizeless_message 16))
        radio_received).0
      ≡ framed msg)
    × (Packet.extract radio (sizeless_message 16) msg ≡ value (5 ∷ 6 ∷ []))
    × Holds store
        (IsSpaced 40)
        (get_message store (sequencer_def radio (sizeless_message 16)) radio_received).1
        (1 ∷ [])
get_message_packet_example =
    get_message_packet (sizeless-IsConverter 16) radio-IsPacketDef store-IsStrategy radio_received
      (0x91 ∷ []) (1 ∷ []) (5 ∷ 6 ∷ []) (omega (arith, radio_length)) radio_received-Holds
      (omega arith) radio_quiet (omega arith)
