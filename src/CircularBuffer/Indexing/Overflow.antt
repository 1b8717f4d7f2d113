-- ===== src/CircularBuffer/Indexing/Overflow.antt =====
-- `_overflow_strategy< N >`: indices that run through all `m` values of their type, for an N that
-- divides `m`. Both are powers of two in the source, so the quotient `q` is given.
use emlabcpp.Prelude.{
  ℕ, ◌+◌, ◌-◌, ◌*◌, ◌%◌, ◌≤◌, ◌<◌, ◌≡◌, refl, sym, ap, ◌∙◌, arith, ◌==◌, ==_iff, inl, inr, ◌⊎◌,
  mod_cases,
}
use native.Mathlib.Nat.{mod-lt, mod-eq_of_lt, mod-add-mod, add-mod_right, add-mul-mod_self_left}
use emlabcpp.CircularBuffer.Indexing.{Indices, Strategy, IsStrategy}

module _ (n m : ℕ) where
  unfoldable pub incr_front : ℕ → Indices → Indices
  incr_front k i = record i { from = (i.from + k % m) % m }

  unfoldable pub incr_back : ℕ → Indices → Indices
  incr_back k i = record i { to = (i.to + k % m) % m }

  -- `to_ - from_` wraps
  unfoldable pub size : Indices → ℕ
  size i = (i.to + m - i.from) % m

  abbrev pub overflow_strategy : Strategy
  overflow_strategy = record {
    max_size = n;
    front_idx = λ i. i.from % n;
    back_idx = λ i. i.to % n;
    last_idx = λ i. (i.to + n - 1) % n;
    incr_front = incr_front;
    incr_back = incr_back;
    size = size;
    is_empty = λ i. i.from == i.to;
    is_full = λ i. size i == n % m;
  }

pub record IsOverflowing (n m : ℕ) (i : Indices) : Type 0 where
  pub from_in : i.from < m
  pub to_in : i.to < m
  pub size_in : size n m i ≤ n

module _ (n m q : ℕ) (parts : m ≡ n * q) (positive : 0 < n) (small : n < m) where
  size-cases :
      (i : Indices)
      → i.from < m
      → i.to < m
      → ((i.from ≤ i.to) × (size n m i + i.from ≡ i.to))
        ⊎ ((i.to < i.from) × (size n m i + i.from ≡ i.to + m))
  unfolding size
  size-cases i hf ht = omega (arith, mod_cases m (i.to + m - i.from) (omega arith))

  -- a whole range of the index type does not move a slot
  wrap_slot : (x : ℕ) → (x + m) % n ≡ x % n
  wrap_slot x = ap (λ (t : ℕ). (x + t) % n) parts ∙ add-mul-mod_self_left x n q

  stepped :
      (x k : ℕ)
      → x < m
      → k ≤ n
      → ((x + k < m) × ((x + k % m) % m ≡ x + k)) ⊎ ((m ≤ x + k) × ((x + k % m) % m + m ≡ x + k))
  stepped x k hx hk =
      let inner : k % m ≡ k = mod-eq_of_lt (omega arith) in
      let outer : (x + k % m) % m ≡ (x + k) % m = ap (λ (t : ℕ). (x + t) % m) inner in
      omega (arith, outer, mod_cases m (x + k) (omega arith))

  -- the slot of an index after a step that may have wrapped
  slot_moved : (x k : ℕ) → x < m → k ≤ n → (x + k % m) % m % n ≡ (x % n + k) % n
  slot_moved x k hx hk = elim (stepped x k hx hk) [
    | inl a ↦ ap (λ (t : ℕ). t % n) a.1 ∙ sym (mod-add-mod x n k)
    | inr a ↦
        sym (wrap_slot ((x + k % m) % m)) ∙ ap (λ (t : ℕ). t % n) a.1 ∙ sym (mod-add-mod x n k)
  ]

  overflow-back_at : (i : Indices) → IsOverflowing n m i → i.to % n ≡ (i.from % n + size n m i) % n
  overflow-back_at i v = elim (size-cases i v.from_in v.to_in) [
    | inl a ↦
        let sum : i.from + size n m i ≡ i.to = omega arith in
        sym (mod-add-mod i.from n (size n m i) ∙ ap (λ (t : ℕ). t % n) sum)
    | inr a ↦
        let sum : i.from + size n m i ≡ i.to + m = omega arith in
        sym (mod-add-mod i.from n (size n m i) ∙ ap (λ (t : ℕ). t % n) sum ∙ wrap_slot i.to)
  ]

  overflow-last_at :
      (i : Indices)
      → IsOverflowing n m i
      → 0 < size n m i
      → (i.to + n - 1) % n ≡ (i.from % n + (size n m i - 1)) % n
  overflow-last_at i v h =
      let y = i.from + (size n m i - 1) in
      let far : (i.from % n + (size n m i - 1)) % n ≡ (y + n) % n =
        mod-add-mod i.from n (size n m i - 1) ∙ sym (add-mod_right y n) in
      elim (size-cases i v.from_in v.to_in) [
        | inl a ↦
            let same : y + n ≡ i.to + n - 1 = omega arith in sym (far ∙ ap (λ (t : ℕ). t % n) same)
        | inr a ↦
            let same : y + n ≡ i.to + n - 1 + m = omega arith in
            sym (far ∙ ap (λ (t : ℕ). t % n) same ∙ wrap_slot (i.to + n - 1))
      ]

  overflow-back_moves :
      (i : Indices) (k : ℕ)
      → IsOverflowing n m i
      → size n m i + k ≤ n
      → IsOverflowing n m (incr_back n m k i)
        × (size n m (incr_back n m k i) ≡ size n m i + k)
        × ((incr_back n m k i).from % n ≡ i.from % n)
  unfolding incr_back
  overflow-back_moves i k v h =
      let i' = incr_back n m k i in
      let moves = stepped i.to k v.to_in (omega arith) in
      let to_in' : i'.to < m = omega (arith, moves) in
      let grown : size n m i' ≡ size n m i + k =
        omega (arith, moves, size-cases i v.from_in v.to_in, size-cases i' v.from_in to_in') in
      (record { from_in = v.from_in; to_in = to_in'; size_in = omega arith }, grown, refl)

  overflow-front_moves :
      (i : Indices) (k : ℕ)
      → IsOverflowing n m i
      → k ≤ size n m i
      → IsOverflowing n m (incr_front n m k i)
        × (size n m (incr_front n m k i) + k ≡ size n m i)
        × ((incr_front n m k i).from % n ≡ (i.from % n + k) % n)
  unfolding incr_front
  overflow-front_moves i k v h =
      let i' = incr_front n m k i in
      let short : k ≤ n = omega (arith, v.size_in) in
      let moves = stepped i.from k v.from_in short in
      let from_in' : i'.from < m = omega (arith, moves) in
      let shrunk : size n m i' + k ≡ size n m i =
        omega (arith, moves, size-cases i v.from_in v.to_in, size-cases i' from_in' v.to_in) in
      (
        record { from_in = from_in'; to_in = v.to_in; size_in = omega (arith, v.size_in) },
        shrunk,
        slot_moved i.from k v.from_in short,
      )

  -- If `n` is positive, divides the number of values of the index type and is less than it, the
  -- overflow strategy keeps what the buffer relies on with room for all `n` slots, also where an
  -- index wraps.
  pub overflow-IsStrategy : IsStrategy (overflow_strategy n m) n (IsOverflowing n m)
  overflow-IsStrategy =
      let whole : n % m ≡ n = mod-eq_of_lt small in
      let none : size n m (record { from = 0; to = 0 }) ≡ 0 =
        omega (arith, size-cases (record { from = 0; to = 0 }) (omega arith) (omega arith)) in
      record {
        room = omega arith;
        start =
            (record { from_in = omega arith; to_in = omega arith; size_in = omega arith }, none);
        front_in = λ i v. mod-lt i.from positive;
        size_in = λ i v. v.size_in;
        back_at = overflow-back_at;
        last_at = overflow-last_at;
        empty_iff = λ i v. (
          λ e. omega (arith, size-cases i v.from_in v.to_in, (==_iff i.from i.to).0 e),
          λ e. (==_iff i.from i.to).1 (omega (arith, size-cases i v.from_in v.to_in)),
        );
        full_iff = λ i v. (
          λ e. (==_iff (size n m i) (n % m)).0 e ∙ whole,
          λ e. (==_iff (size n m i) (n % m)).1 (e ∙ sym whole),
        );
        back_moves = overflow-back_moves;
        front_moves = overflow-front_moves;
      }
