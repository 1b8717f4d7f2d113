-- ===== src/CircularBuffer.antt =====
-- include/emlabcpp/static_circular_buffer.hpp and static_storage.hpp: a queue of at most N elements
-- in a fixed storage. A slot of the storage holds an object or none; an operation of the source that
-- reaches for an object where none is gives `none` here.
pub mod Indexing
pub mod Slots
pub mod Refine
pub mod Reads
pub mod Ranges
pub mod Iteration
pub mod Trace
pub mod Steps
pub mod Moves
mod Tests
use mathlib.Core.Option
use emlabcpp.Prelude.{
  ℕ, zero, suc, ◌+◌, ◌-◌, ◌%◌, Bool, true, false, Option, none, some, List, [], ◌∷◌, length, set,
  get_or, take, drop, ltb, leb, ◌==◌, if◌then◌else◌, replicate, ◌++◌, map,
}
use emlabcpp.CircularBuffer.Indexing.{Indices, Strategy}

-- `static_circular_buffer`, and the objects in its `static_storage`
pub record Buffer (A : Type 0) : Type 0 where
  pub storage : List (Option A)
  pub indices : Indices

module _ {A : Type 0} where
  -- What `copy_n` and `move_n` do to the storage with the objects that they read: they are
  -- constructed from position `i` on.
  unfoldable pub copy_n : List (Option A) → ℕ → List A → List (Option A)
  copy_n storage i [] = storage
  copy_n storage i (item ∷ rest) = copy_n (set storage i (some item)) (i + 1) rest

  -- `delete_n`
  unfoldable pub delete_n : List (Option A) → ℕ → ℕ → List (Option A)
  delete_n storage i zero = storage
  delete_n storage i (suc n) = delete_n (set storage i none) (i + 1) n

  -- A copy of a range reads each of its objects.
  abbrev pub collect : List (Option A) → Option (List A)
  collect [] = some []
  collect (none ∷ rest) = none
  collect (some item ∷ rest) = Option.map (λ items. item ∷ items) (collect rest)

-- A range that is copied or moved: what its iterator refers to in each step, and the objects that
-- stand in memory from what the iterator refers to after `k` steps on.
pub record Range (A : Type 0) : Type 0 where
  pub items : List (Option A)
  pub memory : ℕ → List (Option A)

-- an array, a span, a vector
abbrev pub contiguous : {A : Type 0} → List A → Range A
contiguous xs = record { items = map some xs; memory = λ k. drop k (map some xs) }

-- What `_copy_n` and `_move_n` read from the iterator after `k` steps on: `n` objects of memory in one
-- `memcpy` for an item type that is trivially copied or moved, of which none stands behind the
-- memory of the range, and else what the iterator refers to, step by step.
unfoldable pub read_n : {A : Type 0} → Bool → Range A → ℕ → ℕ → List (Option A)
read_n true range k n = take n (range.memory k ++ replicate n none)
read_n false range k n = take n (drop k range.items)

-- `operator++` of the iterator: one step, and round to the begin at the end
unfoldable pub next_pos : Strategy → ℕ → ℕ
next_pos s p = if p + 1 == s.max_size then 0 else p + 1

-- `operator--`: from the begin round to the last slot
unfoldable pub prev_pos : Strategy → ℕ → ℕ
prev_pos s p = (if p == 0 then s.max_size else p) - 1

-- `operator+=` with `v`, and with `- v`, for which the remainder of the source keeps the sign of the
-- dividend
unfoldable pub advance : Strategy → ℕ → ℕ → ℕ
advance s v p = (p + v) % s.max_size

unfoldable pub retreat : Strategy → ℕ → ℕ → ℕ
retreat s v p =
    let n = s.max_size in
    let below = (v - p) % n in if leb v p then (p - v) % n else if below == 0 then 0 else n - below

module _ (s : Strategy) {A : Type 0} where
  -- the default constructor
  unfoldable pub fresh : Buffer A
  fresh = record { storage = replicate s.max_size none; indices = record { from = 0; to = 0 } }

  unfoldable pub front : Buffer A → Option A
  front b = get_or b.storage (s.front_idx b.indices) none

  unfoldable pub back : Buffer A → Option A
  back b = get_or b.storage (s.last_idx b.indices) none

  unfoldable pub size : Buffer A → ℕ
  size b = s.size b.indices

  unfoldable pub is_empty : Buffer A → Bool
  is_empty b = s.is_empty b.indices

  unfoldable pub is_full : Buffer A → Bool
  is_full b = s.is_full b.indices

  -- The item is placed first, and then the index is advanced.
  unfoldable pub emplace_back : A → Buffer A → Buffer A
  emplace_back item b = record {
    storage = set b.storage (s.back_idx b.indices) (some item);
    indices = s.incr_back 1 b.indices;
  }

  unfoldable pub push_back : A → Buffer A → Buffer A
  unfolding emplace_back
  push_back item b = emplace_back item b

  unfoldable pub pop_front : Buffer A → Buffer A
  pop_front b = record {
    storage = set b.storage (s.front_idx b.indices) none;
    indices = s.incr_front 1 b.indices;
  }

  unfoldable pub take_front : Buffer A → Option A × Buffer A
  unfolding front pop_front
  take_front b = (front b, pop_front b)

  -- `pop_front( n )`
  unfoldable pub pop_front_n : ℕ → Buffer A → Buffer A
  unfolding delete_n
  pop_front_n n b =
      let idx = s.front_idx b.indices in
      let capacity = s.max_size - idx in
      let storage = b.storage in
      record {
        storage =
            if ltb capacity n
            then delete_n (delete_n storage idx capacity) 0 (n - capacity)
            else delete_n storage idx n;
        indices = s.incr_front n b.indices;
      }

  -- Where `copy_range_back` and `move_range_back` put what they read.
  unfoldable pub place_back : List A → Buffer A → Buffer A
  unfolding copy_n
  place_back items b =
      let idx = s.back_idx b.indices in
      let capacity = s.max_size - idx in
      let n = length items in
      let storage = b.storage in
      record {
        storage =
            if ltb capacity n
            then copy_n (copy_n storage idx (take capacity items)) 0 (drop capacity items)
            else copy_n storage idx items;
        indices = s.incr_back n b.indices;
      }

  -- Their two reads: up to the end of the storage, and the rest.
  unfoldable pub read_range : Bool → Range A → ℕ → List (Option A)
  unfolding read_n
  read_range trivial range capacity =
      let n = length range.items in
      if ltb capacity n
      then read_n trivial range 0 capacity ++ read_n trivial range capacity (n - capacity)
      else read_n trivial range 0 n

  -- `copy_range_back`, and `move_range_back`, which differs in how an item is constructed: `trivial`
  -- tells whether the item type is trivially copied, or moved. A read of no object gives `none`.
  unfoldable pub copy_range_back : Bool → Range A → Buffer A → Option (Buffer A)
  unfolding place_back read_range
  copy_range_back trivial range b =
      Option.map (λ items. place_back items b)
        (collect (read_range trivial range (s.max_size - s.back_idx b.indices)))

  unfoldable pub clear : Buffer A → Buffer A
  unfolding pop_front_n size
  clear b = pop_front_n (size b) b

  -- `n` increments of an iterator at slot `p`, and what it refers to before each
  unfoldable pub iterate : List (Option A) → ℕ → ℕ → List (Option A)
  unfolding next_pos
  iterate storage p zero = []
  iterate storage p (suc n) = get_or storage p none ∷ iterate storage (next_pos s p) n

  -- from `p` until the iterator equals `end`, on fuel
  unfoldable pub walk : List (Option A) → ℕ → ℕ → ℕ → List (Option A)
  unfolding next_pos
  walk storage p end zero = []
  walk storage p end (suc fuel) =
      let rest = walk storage (next_pos s p) end fuel in
      if p == end then [] else get_or storage p none ∷ rest

  -- what a loop from `begin()` to `end()` sees
  unfoldable pub elements : Buffer A → List (Option A)
  unfolding walk
  elements b = walk b.storage (s.front_idx b.indices) (s.back_idx b.indices) s.max_size

  -- a buffer as a range, with its iterators, which go round the storage
  unfoldable pub range_of : Buffer A → Range A
  unfolding iterate size advance
  range_of b = record {
    items = iterate b.storage (s.front_idx b.indices) (size b);
    memory = λ k. drop (advance s k (s.front_idx b.indices)) b.storage;
  }

  -- the copy constructor
  unfoldable pub copy : Bool → Buffer A → Option (Buffer A)
  unfolding copy_range_back range_of fresh
  copy trivial other = copy_range_back trivial (range_of other) fresh

  -- copy assignment from another buffer
  unfoldable pub assign : Bool → Buffer A → Buffer A → Option (Buffer A)
  unfolding copy_range_back range_of clear
  assign trivial other b = copy_range_back trivial (range_of other) (clear b)

  -- the move constructor and move assignment: the new buffer, and the one that was moved from
  unfoldable pub move : Bool → Buffer A → Option (Buffer A × Buffer A)
  unfolding copy_range_back range_of fresh clear
  move trivial other =
      Option.map (λ b. (b, clear other)) (copy_range_back trivial (range_of other) fresh)

  unfoldable pub move_assign : Bool → Buffer A → Buffer A → Option (Buffer A × Buffer A)
  unfolding copy_range_back range_of clear
  move_assign trivial other b =
      Option.map (λ t. (t, clear other)) (copy_range_back trivial (range_of other) (clear b))
