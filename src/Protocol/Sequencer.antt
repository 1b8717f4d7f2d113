-- ===== src/Protocol/Sequencer.antt =====
-- include/emlabcpp/protocol/sequencer.hpp: bytes from a stream are kept in a circular buffer until
-- they start with the prefix of a message and hold all of it.
pub mod Refine
pub mod Resync
pub mod Packets
mod Tests
use emlabcpp.Prelude.{
  ℕ, zero, suc, ◌+◌, ◌-◌, drop, Bool, true, false, not, ◌&&◌, Option, none, some, List, [], ◌∷◌,
  map, length, take, ltb, ◌==◌, if◌then◌else◌,
}
use emlabcpp.CircularBuffer.{Buffer, push_back, pop_front, size, is_empty, iterate, elements}
use emlabcpp.CircularBuffer.Indexing.{Strategy}

-- What `Def` provides. `get_size` reads the buffer from its first byte on.
pub record SequencerDef : Type 0 where
  pub prefix : List ℕ
  pub fixed_size : ℕ
  pub capacity : ℕ
  pub get_size : List ℕ → ℕ

-- What `get_message` returns: `sequencer_read_request` or a message. `message_type` does not check
-- the size that it is given: `overrun` is a message of more bytes than its array has, past the end
-- of which the source copies.
pub data Response : Type 0 where
  read_request : ℕ → Response
  framed : List ℕ → Response
  overrun : ℕ → Response

-- `std::mismatch`: how many items at the front are equal
unfoldable pub mismatch : List ℕ → List ℕ → ℕ
mismatch [] ys = 0
mismatch (x ∷ xs) [] = 0
mismatch (x ∷ xs) (y ∷ ys) = let k = mismatch xs ys in if x == y then suc k else 0

-- A `std::byte` can be read from any slot.
abbrev pub byte_at : Option ℕ → ℕ
byte_at none = 0
byte_at (some byte) = byte

module _ (s : Strategy) (d : SequencerDef) where
  -- `insert`, by `std::back_inserter`
  unfoldable pub insert : List ℕ → Buffer ℕ → Buffer ℕ
  insert [] b = b
  insert (byte ∷ rest) b = insert rest (push_back s byte b)

  -- the bytes from `begin()` to `end()`, and the `size()` bytes from `begin()` on
  unfoldable pub visible : Buffer ℕ → List ℕ
  visible b = map byte_at (elements s b)

  unfoldable pub held : Buffer ℕ → List ℕ
  held b = map byte_at (iterate s b.storage (s.front_idx b.indices) (size s b))

  -- The `while` loop, on fuel: its response if it returns, and the buffer.
  unfoldable pub synchronise : ℕ → Buffer ℕ → Option Response × Buffer ℕ
  synchronise zero b = (none, b)
  synchronise (suc fuel) b =
      let later = synchronise fuel (pop_front s b) in
      let bytes = visible b in
      let k = mismatch d.prefix bytes in
      let open_prefix = not (k == length d.prefix) in
      if is_empty s b
      then (none, b)
      else if k == 0
      then later
      else if open_prefix && not (k == length bytes)
      then later
      else if open_prefix
      then (some (read_request (d.fixed_size - k)), b)
      else (none, b)

  -- `for ( i = desired_size; i > 0; i-- )`
  unfoldable pub pop_times : ℕ → Buffer ℕ → Buffer ℕ
  pop_times zero b = b
  pop_times (suc i) b = pop_times i (pop_front s b)

  -- what follows the loop
  unfoldable pub complete : Buffer ℕ → Response × Buffer ℕ
  complete b =
      let bsize = size s b in
      let desired_size = d.get_size (held b) in
      if is_empty s b
      then (read_request d.fixed_size, b)
      else if ltb bsize d.fixed_size
      then (read_request (d.fixed_size - bsize), b)
      else if ltb bsize desired_size
      then (read_request (desired_size - bsize), b)
      else if ltb d.capacity desired_size
      then (overrun desired_size, b)
      else (framed (take desired_size (held b)), pop_times desired_size b)

  unfoldable pub finish : Option Response × Buffer ℕ → Response × Buffer ℕ
  finish (some response, b) = (response, b)
  finish (none, b) = complete b

  -- The loop removes a byte in each round but its last, so the size of the buffer is enough fuel.
  unfoldable pub get_message : Buffer ℕ → Response × Buffer ℕ
  unfolding finish synchronise
  get_message b = finish (synchronise (size s b) b)

-- The same on the bytes themselves.
module _ (d : SequencerDef) where
  -- whether the loop removes the first of the bytes
  unfoldable pub skips : List ℕ → Bool
  skips bytes =
      let k = mismatch d.prefix bytes in
      if k == 0 then true else not (k == length d.prefix) && not (k == length bytes)

  unfoldable pub aligned : List ℕ → Option Response × List ℕ
  aligned [] = (none, [])
  aligned (byte ∷ bytes) =
      let later = aligned bytes in
      let k = mismatch d.prefix (byte ∷ bytes) in
      if skips (byte ∷ bytes)
      then later
      else if k == length d.prefix
      then (none, byte ∷ bytes)
      else (some (read_request (d.fixed_size - k)), byte ∷ bytes)

  unfoldable pub cut : List ℕ → Response × List ℕ
  cut [] = (read_request d.fixed_size, [])
  cut (byte ∷ rest) =
      let bytes = byte ∷ rest in
      let desired_size = d.get_size bytes in
      if ltb (length bytes) d.fixed_size
      then (read_request (d.fixed_size - length bytes), bytes)
      else if ltb (length bytes) desired_size
      then (read_request (desired_size - length bytes), bytes)
      else if ltb d.capacity desired_size
      then (overrun desired_size, bytes)
      else (framed (take desired_size bytes), drop desired_size bytes)

  unfoldable pub frame_of : Option Response × List ℕ → Response × List ℕ
  frame_of (some response, bytes) = (response, bytes)
  frame_of (none, bytes) = cut bytes

  unfoldable pub frame : List ℕ → Response × List ℕ
  frame bytes = frame_of (aligned bytes)
