-- ===== src/Lib.antt =====
-- emlabcpp: a library of headers for embedded systems. The development is about its core for
-- messages, include/emlabcpp/protocol, and about the circular buffer that receives them.
--
-- The parts and their files:
--
-- A protocol is declared as a type, and `converter< D, E >` (include/emlabcpp/protocol/converter.hpp)
-- turns a value of it into bytes and back. Protocol/Converter.antt has the members of a converter as
-- a record, `Converter`, and the contract that they are held to, `IsConverter`: for valid values the
-- size is between `min_size` and `max_size`, only bytes are written, and what is written is read back
-- before whatever may follow it; and for every buffer no more bytes are reported as used than it has,
-- and only valid values are read. A composite converter is a function of the converters of its parts,
-- and its theorem has the contracts of the parts as hypotheses, so that the theorems compose as the
-- templates do. Protocol/Packet/Laws.antt is such a composition.
--   Protocol/Serializer.antt      serializer.hpp: integers and bool to bytes
--   Protocol/Converter/Integer.antt, Scalar.antt, Range.antt, Tuple.antt, Variant.antt, Framed.antt,
--   Protocol/Converter/Text.antt
--                                 the specializations of `converter`, under the names of the source
--   Protocol/Handler.antt         handler.hpp: messages, and errors with their offset
--   Protocol/Packet.antt          packet.hpp, packet_handler.hpp: prefix, size, payload, checksum
--   Protocol/Sequencer.antt       sequencer.hpp: messages out of a stream, over the circular buffer
--   Protocol/Sequencer/Packets.antt  the definition that a packet gives to the sequencer
--
-- `static_circular_buffer` (include/emlabcpp/static_circular_buffer.hpp) holds at most N items in a
-- static storage (include/emlabcpp/static_storage.hpp). What it asks of its strategy for the indices
-- is the record of laws `IsStrategy` of CircularBuffer/Indexing.antt; `_spacer_strategy` and
-- `_overflow_strategy` fill it in CircularBuffer/Indexing/Spacer.antt and Overflow.antt. The buffer
-- itself (CircularBuffer.antt) is compared with a queue over any strategy with those laws:
-- CircularBuffer/Refine.antt for single items, Reads.antt and Ranges.antt for ranges, Iteration.antt and
-- Steps.antt for iterators and copies, Moves.antt for moves, Trace.antt for sequences of calls.
--
-- include/emlabcpp/experimental/cobs.hpp turns bytes into bytes that are not zero, and back: the encoder
-- and the decoder of Cobs.antt. Cobs/Encode.antt has the encoding as a function of the source, which
-- Cobs/Encode/Loop.antt compares with the encoder; Cobs/Decode.antt is about the decoder, and
-- Cobs/Link.antt about both.
--
-- include/emlabcpp/experimental/cfg (page.hpp, handler.hpp) keeps values under keys in pages of a
-- memory. A page starts with a header of one of three states, and cells with the values follow it, a
-- later one before an earlier one of the same key. Cfg.antt has the interfaces and the status codes,
-- Cfg/Page.antt the headers, Cfg/Cell.antt the cells, Cfg/Locate.antt the search for the current and
-- the next page, Cfg/Store.antt `update`, Cfg/Load.antt `load`, and Cfg/Callbacks.antt the functions
-- for callbacks. Cfg/Entry.antt describes what stands in a page. Cfg/Locate/Turns.antt is about the
-- order in which the pages are used, Cfg/Store/Finish.antt and Cfg/Load/Finish.antt about the ends of
-- the loops, Cfg/Store/Turn.antt and Cfg/Load/Page.antt about what is written and loaded, and
-- Cfg/Link.antt about both.
--
-- include/emlabcpp/static_vector.hpp is a vector in such a storage (StaticVector.antt), which
-- StaticVector/Refine.antt, Copies.antt and Swap.antt compare with the list of its items.
-- include/emlabcpp/pmr/pool_resource.hpp keeps its free pools in a vector of that kind: Pool.antt over
-- StaticVector.antt. Pool/Laws.antt is about one call, and Pool/Blocks.antt about any calls.
--
-- include/emlabcpp/algorithm.hpp has searches and folds over containers: Algorithm.antt, with
-- Algorithm/Search.antt about what is found.
--
-- How the code corresponds to the model:
--
-- A byte is a number below 256, an unsigned integer of w bytes a number below 256 ^ w, and what wraps
-- in the source is a remainder here. `serialize_at` gives the bytes that the source writes at the
-- start of its span; what the source returns is their number. `deserialize` gives the result with the
-- value, in place of a reference that it writes to. A tuple is a nested pair, a variant a nested sum.
-- The byte order, the widths, the capacities and the definitions of the parts are arguments, as they
-- are parameters of the templates. The checksum of a packet is a parameter of the model, since the
-- user provides it. A slot of the circular buffer holds an object or none. The indices of a strategy
-- are numbers modulo the range m of their integer type; N and m are powers of two for the overflow
-- strategy, of which only is used that N divides m. The loop of an iterator is on fuel, which is the
-- number of slots: no loop from `begin()` to `end()` takes more steps. The loop of the sequencer is on
-- fuel, which is the size of its buffer: each round but the last removes a byte.
--
-- The interfaces of the configuration storage are implemented by the user: a virtual function is a
-- field of a record, which takes and gives the state of the object. `get_buffer` is taken to give the
-- same bytes at each call, which are part of the `World`. A word in a cell has the byte order of the
-- machine, an argument. The loops of `update` and `load` are on fuel, which is one more than the
-- address at which a page ends: each round moves the address by a cell at least.
--
-- An alignment is taken to be a power of two, as callers have to give it, so that the mask of
-- `align_addr` is a division. A moved-from item counts as an item of its vector until it is removed.
--
-- The page counter of the configuration storage is a `uint32_t`: a loop of Cfg/Locate.antt has a round
-- for each value of it at most, and is unfinished behind them if there are more pages, for which the
-- counter would start again. The remainder by a page size of zero is undefined.
--
-- A range that is put into the circular buffer is a record of what its iterator gives and of what
-- stands in memory behind it, since `_copy_n` copies trivial item types by one `memcpy`.
--
-- What a failed conversion leaves in the reference is not modelled, since the handler drops it. The
-- assertions of the source on sizes are not definitions: the bounds that they check are part of the
-- contract. Not modelled: signed integers and floating point, bit sets, comparisons of buffers,
-- interrupts between the steps of a call on the circular buffer, the iterator over encoded bytes in
-- cobs.hpp, the range of `std::size_t` in the configuration storage, and the other headers of the
-- library.
pub mod Prelude
pub mod Algorithm
pub mod Pool
pub mod Protocol
pub mod StaticVector
pub mod CircularBuffer
pub mod Cfg
pub mod Cobs
