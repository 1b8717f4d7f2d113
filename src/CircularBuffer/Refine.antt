-- ===== src/CircularBuffer/Refine.antt =====
-- The circular buffer as a queue, over any strategy that keeps what the buffer relies on.
use emlabcpp.Prelude.{
  ℕ, ◌+◌, ◌-◌, ◌%◌, ◌≤◌, ◌<◌, ◌≡◌, ◌↔◌, sym, ap, ◌∙◌, arith, true, none, some, List, [], ◌∷◌, ◌++◌,
  length, length-append, length-set, length-replicate, set, get_or, get_elem?-append_end, subst,
}
use native.Mathlib.Nat.{mod-eq_of_lt}
use emlabcpp.CircularBuffer.{
  Buffer, fresh, front, back, size, is_empty, is_full, emplace_back, push_back, pop_front,
  take_front,
}
use emlabcpp.CircularBuffer.Indexing.{Indices, Strategy, IsStrategy}
use emlabcpp.CircularBuffer.Slots.{Slots, Slots-push, Slots-pop}

-- The buffer holds the items of a queue, in order.
pub record Holds (s : Strategy) (Valid : Indices → Type 0) {A : Type 0} (b : Buffer A) (xs : List A)
    : Type 0 where
  pub valid : Valid b.indices
  pub whole : length b.storage ≡ s.max_size
  pub count : s.size b.indices ≡ length xs
  pub slots : Slots s.max_size b.storage (s.front_idx b.indices) xs

module _ {s : Strategy} {n : ℕ} {Valid : Indices → Type 0} (law : IsStrategy s n Valid)
    {A : Type 0} where
  -- A new buffer holds no item.
  pub fresh-Holds : Holds s Valid (fresh s {A = A}) []
  unfolding fresh
  fresh-Holds = record {
    valid = law.start.0;
    whole = length-replicate s.max_size none;
    count = law.start.1;
    slots = λ i h. elim h [ ];
  }

  -- For a strategy that keeps what the buffer relies on, `push_back` adds its item behind those
  -- held, if they are fewer than `n`.
  pub push_back-Holds :
      (x : A) (b : Buffer A) (xs : List A)
      → length xs < n
      → Holds s Valid b xs
      → Holds s Valid (push_back s x b) (xs ++ (x ∷ []))
  unfolding push_back emplace_back
  push_back-Holds x b xs room h =
      let moves = law.back_moves b.indices 1 h.valid (omega (arith, h.count)) in
      let h0 = s.front_idx b.indices in
      let inside = law.front_in b.indices h.valid in
      let placed : s.back_idx b.indices ≡ (h0 + length xs) % s.max_size =
        law.back_at b.indices h.valid ∙ ap (λ (k : ℕ). (h0 + k) % s.max_size) h.count in
      let pushed : Slots s.max_size (set b.storage ((h0 + length xs) % s.max_size) (some x)) h0
          (xs ++ (x ∷ [])) =
        Slots-push s.max_size b.storage h0 xs x (omega (arith, h.whole)) inside
          (omega (arith, law.room)) h.slots in
      record {
        valid = moves.0;
        whole = length-set b.storage (s.back_idx b.indices) (some x) ∙ h.whole;
        count = moves.1 ∙ omega (arith, h.count, length-append xs (x ∷ []));
        slots =
            subst
              (λ (k : ℕ).
                Slots s.max_size (set b.storage (s.back_idx b.indices) (some x)) k (xs ++ (x ∷ [])))
              (sym moves.2)
              (subst (λ (k : ℕ). Slots s.max_size (set b.storage k (some x)) h0 (xs ++ (x ∷ [])))
                (sym placed) pushed);
      }

  -- For a strategy that keeps what the buffer relies on, `take_front` gives the first item that the
  -- buffer holds and leaves the others.
  pub take_front-Holds :
      (b : Buffer A) (x : A) (xs : List A)
      → Holds s Valid b (x ∷ xs)
      → ((take_front s b).0 ≡ some x) × Holds s Valid (take_front s b).1 xs
  unfolding take_front front pop_front
  take_front-Holds b x xs h =
      let c = s.max_size in
      let moves = law.front_moves b.indices 1 h.valid (omega (arith, h.count)) in
      let h0 = s.front_idx b.indices in
      let inside = law.front_in b.indices h.valid in
      let few : length (x ∷ xs) ≤ c =
        omega (arith, h.count, law.size_in b.indices h.valid, law.room) in
      let start : (h0 + 0) % c ≡ h0 =
        ap (λ (k : ℕ). k % c) {x = h0 + 0} {y = h0} (omega arith) ∙ mod-eq_of_lt inside in
      (
        ap (λ (k : ℕ). get_or b.storage k none) (sym start) ∙ h.slots 0 (omega arith),
        record {
          valid = moves.0;
          whole = length-set b.storage h0 none ∙ h.whole;
          count = omega (arith, h.count, moves.1);
          slots =
              subst (λ (k : ℕ). Slots c (set b.storage h0 none) k xs) (sym moves.2)
                (Slots-pop c b.storage h0 x xs inside (omega (arith, few)) h.slots);
        },
      )

  -- For a strategy that keeps what the buffer relies on, `back` is the last item that the buffer
  -- holds.
  pub back-Holds :
      (b : Buffer A) (xs : List A) (x : A) → Holds s Valid b (xs ++ (x ∷ [])) → back s b ≡ some x
  unfolding back
  back-Holds b xs x h =
      let c = s.max_size in
      let h0 = s.front_idx b.indices in
      let longer : length (xs ++ (x ∷ [])) ≡ length xs + 1 = length-append xs (x ∷ []) in
      let found : s.last_idx b.indices ≡ (h0 + length xs) % c =
        law.last_at b.indices h.valid (omega (arith, h.count))
        ∙ ap (λ (k : ℕ). (h0 + k) % c) {x = s.size b.indices - 1} {y = length xs}
            (omega (arith, h.count)) in
      ap (λ (k : ℕ). get_or b.storage k none) found
      ∙ h.slots (length xs) (omega arith)
      ∙ get_elem?-append_end xs x

  -- For a strategy that keeps what the buffer relies on, `size` is the number of items held,
  -- `empty` holds just if it is 0, and `full` just if it is `n`.
  pub size-Holds :
      (b : Buffer A) (xs : List A)
      → Holds s Valid b xs
      → (size s b ≡ length xs)
        × ((is_empty s b ≡ true) ↔ (length xs ≡ 0))
        × ((is_full s b ≡ true) ↔ (length xs ≡ n))
  unfolding size is_empty is_full
  size-Holds b xs h =
      let empty = law.empty_iff b.indices h.valid in
      let full = law.full_iff b.indices h.valid in
      (
        h.count,
        (λ e. sym h.count ∙ empty.0 e, λ e. empty.1 (h.count ∙ e)),
        (λ e. sym h.count ∙ full.0 e, λ e. full.1 (h.count ∙ e)),
      )
