-- ===== src/CircularBuffer/Ranges.antt =====
-- static_circular_buffer.hpp: the bulk operations of the circular buffer, against the queue.
use mathlib.Core.Option
use emlabcpp.Prelude.{
  ℕ, ◌+◌, ◌-◌, ◌%◌, ◌≤◌, ◌<◌, ◌≡◌, sym, ap, ◌∙◌, arith, Bool, Option, some, List, [], ◌++◌, length,
  length-append, length-drop, drop-length, drop, subst,
}
use native.Mathlib.Nat.{mod-lt}
use emlabcpp.CircularBuffer.Refine.{Holds}
use emlabcpp.CircularBuffer.{Buffer, Range, size, pop_front_n, place_back, copy_range_back, clear}
use emlabcpp.CircularBuffer.Reads.{IsRange, read_range-IsRange}
use emlabcpp.CircularBuffer.Indexing.{Indices, Strategy, IsStrategy}
use emlabcpp.CircularBuffer.Slots.{Slots}
use emlabcpp.CircularBuffer.Slots.Bulk.{
  Slots-write_round, Slots-erase_round, write_round, erase_round, copy_n-split, delete_n-split,
  length-write_round, length-erase_round,
}

module _ {s : Strategy} {n : ℕ} {Valid : Indices → Type 0} (law : IsStrategy s n Valid)
    {A : Type 0} where
  -- Items that fit are put behind those that the buffer holds.
  place_back-Holds :
      (items : List A) (b : Buffer A) (xs : List A)
      → length xs + length items ≤ n
      → Holds s Valid b xs
      → Holds s Valid (place_back s items b) (xs ++ items)
  unfolding place_back
  place_back-Holds items b xs room h =
      let c = s.max_size in
      let moves = law.back_moves b.indices (length items) h.valid (omega (arith, h.count)) in
      let h0 = s.front_idx b.indices in
      let p = s.back_idx b.indices in
      let inside = law.front_in b.indices h.valid in
      let placed : p ≡ (h0 + length xs) % c =
        law.back_at b.indices h.valid ∙ ap (λ (k : ℕ). (h0 + k) % c) h.count in
      let split =
        copy_n-split c b.storage p items
          (subst (λ (t : ℕ). t < c) (sym placed) (mod-lt (h0 + length xs) law.room.0))
          (omega (arith, law.room)) in
      let written : Slots c (write_round c b.storage ((h0 + length xs) % c) items) h0
          (xs ++ items) =
        Slots-write_round c items xs b.storage h0 (omega (arith, h.whole)) inside
          (omega (arith, law.room)) h.slots in
      record {
        valid = moves.0;
        whole =
            ap (λ (t : List (Option A)). length t) split
            ∙ length-write_round c b.storage p items
            ∙ h.whole;
        count = moves.1 ∙ omega (arith, h.count, length-append xs items);
        slots =
            subst (λ (k : ℕ). Slots c (place_back s items b).storage k (xs ++ items)) (sym moves.2)
              (subst (λ (t : List (Option A)). Slots c t h0 (xs ++ items)) (sym split)
                (subst (λ (k : ℕ). Slots c (write_round c b.storage k items) h0 (xs ++ items))
                  (sym placed) written));
      }

  -- For a strategy that keeps what the buffer relies on, `copy_range_back` of a range that fits
  -- adds the items of the range behind those that the buffer holds, whether or not the write runs
  -- past the end of the storage, if the item type is not trivially copied or the items stand in
  -- memory one behind the other.
  pub copy_range_back-Holds :
      (trivial : Bool) (range : Range A) (items : List A) (b : Buffer A) (xs : List A)
      → IsRange trivial range items
      → length xs + length items ≤ n
      → Holds s Valid b xs
      → (b' : Buffer A) × (copy_range_back s trivial range b ≡ some b')
        × Holds s Valid b' (xs ++ items)
  unfolding copy_range_back
  copy_range_back-Holds trivial range items b xs ok room h = (
    place_back s items b,
    ap (λ (o : Option (List A)). Option.map (λ read. place_back s read b) o)
        (read_range-IsRange s trivial range items (s.max_size - s.back_idx b.indices) ok),
    place_back-Holds items b xs room h,
  )

  -- For a strategy that keeps what the buffer relies on, `pop_front( k )` removes the first `k`
  -- items of at least as many, whether or not they run past the end of the storage.
  pub pop_front_n-Holds :
      (k : ℕ) (b : Buffer A) (xs : List A)
      → k ≤ length xs
      → Holds s Valid b xs
      → Holds s Valid (pop_front_n s k b) (drop k xs)
  unfolding pop_front_n
  pop_front_n-Holds k b xs enough h =
      let c = s.max_size in
      let moves = law.front_moves b.indices k h.valid (omega (arith, h.count)) in
      let h0 = s.front_idx b.indices in
      let inside = law.front_in b.indices h.valid in
      let few : length xs ≤ c = omega (arith, h.count, law.size_in b.indices h.valid, law.room) in
      let split = delete_n-split c b.storage h0 k inside (omega (arith, few)) in
      let erased : Slots c (erase_round c b.storage h0 k) ((h0 + k) % c) (drop k xs) =
        Slots-erase_round c k b.storage h0 xs inside few enough h.slots in
      record {
        valid = moves.0;
        whole =
            ap (λ (t : List (Option A)). length t) split
            ∙ length-erase_round c b.storage h0 k
            ∙ h.whole;
        count = omega (arith, h.count, length-drop k xs, moves.1);
        slots =
            subst (λ (t : ℕ). Slots c (pop_front_n s k b).storage t (drop k xs)) (sym moves.2)
              (subst (λ (t : List (Option A)). Slots c t ((h0 + k) % c) (drop k xs)) (sym split)
                erased);
      }

  -- `clear` removes every item.
  pub clear-Holds : (b : Buffer A) (xs : List A) → Holds s Valid b xs → Holds s Valid (clear s b) []
  unfolding clear size
  clear-Holds b xs h =
      subst (λ (k : ℕ). Holds s Valid (pop_front_n s k b) []) (sym h.count)
        (subst (λ (t : List A). Holds s Valid (pop_front_n s (length xs) b) t) (drop-length xs)
          (pop_front_n-Holds (length xs) b xs (omega arith) h))
