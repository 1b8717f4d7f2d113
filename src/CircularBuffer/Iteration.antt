-- ===== src/CircularBuffer/Iteration.antt =====
-- The iterators of the circular buffer, and the copies that read through them.
use emlabcpp.Prelude.{
  ℕ, zero, suc, ◌+◌, ◌%◌, ◌≤◌, ◌<◌, ◌≡◌, ◌≢◌, refl, sym, ap, ap₂, ◌∙◌, arith, false, Option, none,
  some, List, [], ◌∷◌, length, get_or, map, ◌==◌, ==_iff, Bool-cases, inl, inr, mod_distinct,
}
use native.Mathlib.Nat.{mod-eq_of_lt, mod-lt, mod_self, mod-add-mod, add-mod_right}
use emlabcpp.CircularBuffer.{
  Buffer, next_pos, iterate, walk, elements, range_of, copy, assign, clear, fresh, size,
}
use emlabcpp.CircularBuffer.Reads.{IsRange}
use emlabcpp.CircularBuffer.Indexing.{Indices, Strategy, IsStrategy}
use emlabcpp.CircularBuffer.Slots.{Slots, Slots-tail}
use emlabcpp.CircularBuffer.Refine.{Holds, fresh-Holds}
use emlabcpp.CircularBuffer.Ranges.{copy_range_back-Holds, clear-Holds}

pub next_pos-mod : (s : Strategy) (p : ℕ) → p < s.max_size → next_pos s p ≡ (p + 1) % s.max_size
unfolding next_pos
next_pos-mod s p h = elim (Bool-cases (p + 1 == s.max_size)) [
  | inl at_end ↦ rw at_end (
      sym (
        ap (λ (k : ℕ). k % s.max_size) ((==_iff (p + 1) s.max_size).0 at_end)
        ∙ mod_self s.max_size))
  | inr inside ↦ rw inside (sym (mod-eq_of_lt (ground arith)))
]

module _ (s : Strategy) {A : Type 0} where
  iterate-Slots :
      (storage : List (Option A)) (p : ℕ) (xs : List A)
      → p < s.max_size
      → Slots s.max_size storage p xs
      → iterate s storage p (length xs) ≡ map some xs
  unfolding iterate
  iterate-Slots storage p [] hp all = refl
  iterate-Slots storage p (x ∷ xs) hp all =
      let c = s.max_size in
      let start : (p + 0) % c ≡ p =
        ap (λ (k : ℕ). k % c) {x = p + 0} {y = p} (omega arith) ∙ mod-eq_of_lt hp in
      let rest =
        iterate-Slots storage ((p + 1) % c) xs (mod-lt (p + 1) (omega arith))
          (Slots-tail c storage p x xs all) in
      ap₂ (λ (o : Option A) (t : List (Option A)). o ∷ t)
        (ap (λ (k : ℕ). get_or storage k none) (sym start) ∙ all 0 (omega arith))
        (ap (λ (k : ℕ). iterate s storage k (length xs)) (next_pos-mod s p hp) ∙ rest)

  walk-end : (storage : List (Option A)) (p fuel : ℕ) → walk s storage p p fuel ≡ []
  unfolding walk
  walk-end storage p zero = refl
  walk-end storage p (suc fuel) = rw ((==_iff p p).1 refl)

  walk-Slots :
      (storage : List (Option A)) (p end fuel : ℕ) (xs : List A)
      → p < s.max_size
      → length xs < s.max_size
      → length xs ≤ fuel
      → end ≡ (p + length xs) % s.max_size
      → Slots s.max_size storage p xs
      → walk s storage p end fuel ≡ map some xs
  unfolding walk
  walk-Slots storage p end fuel [] hp hl hf he all =
      let c = s.max_size in
      let here : end ≡ p =
        he ∙ ap (λ (k : ℕ). k % c) {x = p + 0} {y = p} (omega arith) ∙ mod-eq_of_lt hp in
      ap (λ (k : ℕ). walk s storage p k fuel) here ∙ walk-end storage p fuel
  walk-Slots storage p end zero (x ∷ xs) hp hl hf he all = absurd (omega arith)
  walk-Slots storage p end (suc fuel) (x ∷ xs) hp hl hf he all =
      let c = s.max_size in
      let start : (p + 0) % c ≡ p =
        ap (λ (k : ℕ). k % c) {x = p + 0} {y = p} (omega arith) ∙ mod-eq_of_lt hp in
      let before : p ≢ end = λ e.
        mod_distinct c p 0 (suc (length xs)) hp (omega arith) hl (λ z. omega arith)
          (start ∙ e ∙ he) in
      let more : (p == end) ≡ false = ground arith in
      let on : end ≡ ((p + 1) % c + length xs) % c =
        he
        ∙ sym (
            mod-add-mod (p + 1) c (length xs)
            ∙ ap (λ (k : ℕ). k % c) {x = p + 1 + length xs} {y = p + suc (length xs)}
                (omega arith)) in
      let rest =
        walk-Slots storage ((p + 1) % c) end fuel xs (mod-lt (p + 1) (omega arith)) (omega arith)
          (omega arith) on (Slots-tail c storage p x xs all) in
      rw more (
        ap₂ (λ (o : Option A) (t : List (Option A)). o ∷ t)
          (ap (λ (k : ℕ). get_or storage k none) (sym start) ∙ all 0 (omega arith))
          (ap (λ (k : ℕ). walk s storage k end fuel) (next_pos-mod s p hp) ∙ rest))

module _ {s : Strategy} {n : ℕ} {Valid : Indices → Type 0} (law : IsStrategy s n Valid)
    {A : Type 0} where
  -- For a strategy that keeps what the buffer relies on, a loop from `begin()` to `end()` sees the
  -- items in order, if a slot of the storage is free.
  pub elements-Holds :
      (b : Buffer A) (xs : List A)
      → length xs < s.max_size
      → Holds s Valid b xs
      → elements s b ≡ map some xs
  unfolding elements
  elements-Holds b xs free h =
      let p = s.front_idx b.indices in
      walk-Slots s b.storage p (s.back_idx b.indices) s.max_size xs (law.front_in b.indices h.valid)
        free (omega arith)
        (law.back_at b.indices h.valid ∙ ap (λ (k : ℕ). (p + k) % s.max_size) h.count) h.slots

  -- For a strategy that keeps what the buffer relies on, if no slot of the storage is free,
  -- `begin()` equals `end()` and a loop between them sees nothing.
  pub elements_full :
      (b : Buffer A) (xs : List A) → length xs ≡ s.max_size → Holds s Valid b xs → elements s b ≡ []
  unfolding elements
  elements_full b xs all h =
      let p = s.front_idx b.indices in
      let same : s.back_idx b.indices ≡ p =
        law.back_at b.indices h.valid
        ∙ ap (λ (k : ℕ). (p + k) % s.max_size) (h.count ∙ all)
        ∙ add-mod_right p s.max_size
        ∙ mod-eq_of_lt (law.front_in b.indices h.valid) in
      ap (λ (k : ℕ). walk s b.storage p k s.max_size) same ∙ walk-end s b.storage p s.max_size

  -- As many steps as there are items see the items, also in a full buffer.
  pub iterate-Holds_all :
      (b : Buffer A) (xs : List A)
      → Holds s Valid b xs
      → iterate s b.storage (s.front_idx b.indices) (s.size b.indices) ≡ map some xs
  iterate-Holds_all b xs h =
      ap (λ (k : ℕ). iterate s b.storage (s.front_idx b.indices) k) h.count
      ∙ iterate-Slots s b.storage (s.front_idx b.indices) xs (law.front_in b.indices h.valid)
          h.slots

  -- A buffer as a range, whose items are not trivially copied.
  pub range_of-IsRange :
      (b : Buffer A) (xs : List A) → Holds s Valid b xs → IsRange false (range_of s b) xs
  unfolding range_of size
  range_of-IsRange b xs h = (iterate-Holds_all b xs h, λ t. absurd (cc t))

  -- For a strategy that keeps what the buffer relies on and items that are not trivially copied, the
  -- copy constructor gives a buffer with the items of the other, also when that is full.
  pub copy-Holds :
      (other : Buffer A) (xs : List A)
      → Holds s Valid other xs
      → (b : Buffer A) × (copy s false other ≡ some b) × Holds s Valid b xs
  unfolding copy
  copy-Holds other xs h =
      copy_range_back-Holds law false (range_of s other) xs (fresh s) []
        (range_of-IsRange other xs h) (omega (arith, h.count, law.size_in other.indices h.valid))
        (fresh-Holds law)

  -- For a strategy that keeps what the buffer relies on and items that are not trivially copied, copy
  -- assignment replaces what the buffer held by the items of the other.
  pub assign-Holds :
      (other b : Buffer A) (xs ys : List A)
      → Holds s Valid other xs
      → Holds s Valid b ys
      → (b' : Buffer A) × (assign s false other b ≡ some b') × Holds s Valid b' xs
  unfolding assign
  assign-Holds other b xs ys h k =
      copy_range_back-Holds law false (range_of s other) xs (clear s b) []
        (range_of-IsRange other xs h) (omega (arith, h.count, law.size_in other.indices h.valid))
        (clear-Holds law b ys k)
