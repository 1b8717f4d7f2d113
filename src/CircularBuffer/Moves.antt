-- ===== src/CircularBuffer/Moves.antt =====
-- Moves of a circular buffer, against the queue, and copies that leave the storage.
use mathlib.Core.Option
use emlabcpp.Prelude.{
  ℕ, ◌+◌, ◌-◌, ◌<◌, ◌≡◌, refl, ap, ◌∙◌, arith, true, false, Option, none, some, List, [], length,
  length-map, length-drop, drop, ltb,
}
use emlabcpp.CircularBuffer.{
  Buffer, move, move_assign, copy, copy_range_back, read_range, read_n, range_of, iterate, advance,
  clear, fresh, size,
}
use emlabcpp.CircularBuffer.Indexing.{Indices, Strategy, IsStrategy}
use emlabcpp.CircularBuffer.Refine.{Holds, fresh-Holds}
use emlabcpp.CircularBuffer.Ranges.{copy_range_back-Holds, clear-Holds}
use emlabcpp.CircularBuffer.Iteration.{range_of-IsRange, iterate-Holds_all}
use emlabcpp.CircularBuffer.Reads.{collect_short}
use emlabcpp.CircularBuffer.Steps.{advance_zero}

module _ {s : Strategy} {n : ℕ} {Valid : Indices → Type 0} (law : IsStrategy s n Valid)
    {A : Type 0} where
  -- The move constructor, for items that are not trivially moved, gives a buffer with the items of
  -- the other and leaves that empty.
  pub move-Holds :
      (other : Buffer A) (xs : List A)
      → Holds s Valid other xs
      → (t : Buffer A × Buffer A) × (move s false other ≡ some t)
        × Holds s Valid t.0 xs
        × Holds s Valid t.1 []
  unfolding move
  move-Holds other xs h =
      let (b, made, held) =
        copy_range_back-Holds law false (range_of s other) xs (fresh s) []
          (range_of-IsRange law other xs h)
          (omega (arith, h.count, law.size_in other.indices h.valid)) (fresh-Holds law) in
      (
        (b, clear s other),
        ap (λ (o : Option (Buffer A)). Option.map (λ t. (t, clear s other)) o) made,
        held,
        clear-Holds law other xs h,
      )

  -- For a strategy that keeps what the buffer relies on and items that are not trivially moved,
  -- move assignment replaces what the buffer held by the items of the other, and leaves the other
  -- empty.
  pub move_assign-Holds :
      (other b : Buffer A) (xs ys : List A)
      → Holds s Valid other xs
      → Holds s Valid b ys
      → (t : Buffer A × Buffer A) × (move_assign s false other b ≡ some t)
        × Holds s Valid t.0 xs
        × Holds s Valid t.1 []
  unfolding move_assign
  move_assign-Holds other b xs ys h k =
      let (b', made, held) =
        copy_range_back-Holds law false (range_of s other) xs (clear s b) []
          (range_of-IsRange law other xs h)
          (omega (arith, h.count, law.size_in other.indices h.valid)) (clear-Holds law b ys k) in
      (
        (b', clear s other),
        ap (λ (o : Option (Buffer A)). Option.map (λ t. (t, clear s other)) o) made,
        held,
        clear-Holds law other xs h,
      )

  -- For a strategy that keeps what the buffer relies on and starts at slot 0, and items that are
  -- trivially copied: the copy of a buffer whose items run past the end of its storage reads behind
  -- the storage.
  pub copy_past_end :
      (other : Buffer A) (xs : List A)
      → s.back_idx (record { from = 0; to = 0 }) ≡ 0
      → Holds s Valid other xs
      → s.max_size < s.front_idx other.indices + length xs
      → copy s true other ≡ none
  unfolding copy copy_range_back read_range read_n range_of fresh size
  copy_past_end other xs start h wraps =
      let p = s.front_idx other.indices in
      let inside = law.front_in other.indices h.valid in
      let items = iterate s other.storage p (s.size other.indices) in
      let count : length items ≡ length xs =
        ap (λ (t : List (Option A)). length t) (iterate-Holds_all law other xs h)
        ∙ length-map xs some in
      let room : ltb (s.max_size - 0) (length xs) ≡ false =
        ground (arith, h.count, law.size_in other.indices h.valid, law.room) in
      let at_p : advance s 0 p ≡ p = advance_zero s p inside in
      let short : length (drop p other.storage) < length xs =
        omega (arith, wraps, length-drop p other.storage, h.whole, inside) in
      rw (start, count, room, at_p, collect_short (length xs) (drop p other.storage) short) refl
