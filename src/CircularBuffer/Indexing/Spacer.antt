-- ===== src/CircularBuffer/Indexing/Spacer.antt =====
-- `_spacer_strategy< N >`: one slot more than elements, so that a full buffer has distinct indices.
-- The index type has `m` values, and holds every index of the storage. An index and a step are added
-- in a type of `w` values, where the sum wraps: the index type of 32 or 64 bits itself, and `int` for
-- the narrower ones.
use emlabcpp.Prelude.{
  ℕ, ◌+◌, ◌-◌, ◌%◌, ◌≤◌, ◌<◌, ◌≡◌, refl, arith, leb, leb→le, ◌==◌, if◌then◌else◌, Bool-cases, inl,
  inr, ◌⊎◌, ◌∙◌, mod_cases, leb_false→lt, ==_iff,
}
use native.Mathlib.Nat.{mod-lt, mod-eq_of_lt}
use emlabcpp.CircularBuffer.Indexing.{Indices, Strategy, IsStrategy}

module _ (n m w : ℕ) where
  unfoldable pub incr_front : ℕ → Indices → Indices
  incr_front k i = record i { from = (i.from + k % m) % w % (n + 1) % m }

  unfoldable pub incr_back : ℕ → Indices → Indices
  incr_back k i = record i { to = (i.to + k % m) % w % (n + 1) % m }

  unfoldable pub size : Indices → ℕ
  size i = if leb i.from i.to then i.to - i.from else (i.to + (n + 1 - i.from)) % m

  abbrev pub spacer_strategy : Strategy
  spacer_strategy = record {
    max_size = n + 1;
    front_idx = λ i. i.from;
    back_idx = λ i. i.to;
    last_idx = λ i. (i.to + (n + 1) - 1) % (n + 1) % m;
    incr_front = incr_front;
    incr_back = incr_back;
    size = size;
    is_empty = λ i. i.from == i.to;
    is_full = λ i. size i == n;
  }

pub record IsSpaced (n : ℕ) (i : Indices) : Type 0 where
  pub from_in : i.from ≤ n
  pub to_in : i.to ≤ n

module _ (n m w : ℕ) (small : n + 1 < m) (no_wrap : n + n < w) where
  -- an index moved by `k` slots
  step : (x k : ℕ) → x ≤ n → k ≤ n → (x + k % m) % w % (n + 1) % m ≡ (x + k) % (n + 1)
  step x k hx hk =
      let inner : k % m ≡ k = mod-eq_of_lt (omega arith) in
      let below : (x + k) % (n + 1) < n + 1 = mod-lt (x + k) (omega arith) in
      let sum : (x + k) % w ≡ x + k = mod-eq_of_lt (omega arith) in
      rw (inner, sum) (mod-eq_of_lt (omega arith))

  moved :
      (x k : ℕ)
      → x ≤ n
      → k ≤ n
      → ((x + k ≤ n) × ((x + k % m) % w % (n + 1) % m ≡ x + k))
        ⊎ ((n < x + k) × ((x + k % m) % w % (n + 1) % m + (n + 1) ≡ x + k))
  moved x k hx hk = elim (mod_cases (n + 1) (x + k) (omega arith)) [
    | inl a ↦ inl (omega arith, step x k hx hk ∙ a.1)
    | inr a ↦ inr (omega arith, omega (arith, step x k hx hk))
  ]

  size-cases :
      (i : Indices)
      → IsSpaced n i
      → ((i.from ≤ i.to) × (size n m w i ≡ i.to - i.from))
        ⊎ ((i.to < i.from) × (size n m w i + i.from ≡ i.to + (n + 1)))
  unfolding size
  size-cases i v = elim (Bool-cases (leb i.from i.to)) [
    | inl le ↦ inl (leb→le i.from i.to le, rw le)
    | inr gt ↦
        let behind : i.to < i.from = leb_false→lt i.from i.to gt in
        let plain : (i.to + (n + 1 - i.from)) % m ≡ i.to + (n + 1 - i.from) =
          mod-eq_of_lt (omega arith) in
        inr (behind, rw gt (omega (arith, plain)))
  ]

  spacer-back_moves :
      (i : Indices) (k : ℕ)
      → IsSpaced n i
      → size n m w i + k ≤ n
      → IsSpaced n (incr_back n m w k i)
        × (size n m w (incr_back n m w k i) ≡ size n m w i + k)
        × ((incr_back n m w k i).from ≡ i.from)
  unfolding incr_back
  spacer-back_moves i k v h =
      let to_moves = moved i.to k v.to_in (omega arith) in
      let v' : IsSpaced n (incr_back n m w k i) = record {
        from_in = v.from_in;
        to_in = omega (arith, to_moves);
      } in
      (v', omega (arith, size-cases i v, size-cases (incr_back n m w k i) v', to_moves), refl)

  spacer-front_moves :
      (i : Indices) (k : ℕ)
      → IsSpaced n i
      → k ≤ size n m w i
      → IsSpaced n (incr_front n m w k i)
        × (size n m w (incr_front n m w k i) + k ≡ size n m w i)
        × ((incr_front n m w k i).from ≡ (i.from + k) % (n + 1))
  unfolding incr_front
  spacer-front_moves i k v h =
      let short : k ≤ n = omega (arith, size-cases i v) in
      let from_moves = moved i.from k v.from_in short in
      let v' : IsSpaced n (incr_front n m w k i) = record {
        from_in = omega (arith, from_moves);
        to_in = v.to_in;
      } in
      (
        v',
        omega (arith, size-cases i v, size-cases (incr_front n m w k i) v', from_moves),
        step i.from k v.from_in short,
      )

  spacer-back_at : (i : Indices) → IsSpaced n i → i.to ≡ (i.from + size n m w i) % (n + 1)
  spacer-back_at i v = omega (
    arith,
    size-cases i v,
    mod_cases (n + 1) (i.from + size n m w i) (omega (arith, size-cases i v)),
  )

  spacer-last_at :
      (i : Indices)
      → IsSpaced n i
      → 0 < size n m w i
      → (i.to + (n + 1) - 1) % (n + 1) % m ≡ (i.from + (size n m w i - 1)) % (n + 1)
  spacer-last_at i v h =
      let y = i.to + (n + 1) - 1 in
      let below : y % (n + 1) < n + 1 = mod-lt y (omega arith) in
      let plain : y % (n + 1) % m ≡ y % (n + 1) = mod-eq_of_lt (omega arith) in
      omega (
        arith,
        plain,
        size-cases i v,
        mod_cases (n + 1) y (omega arith),
        mod_cases (n + 1) (i.from + (size n m w i - 1)) (omega (arith, size-cases i v)),
      )

  -- If the index type has more than `n + 1` values and the sum of two numbers up to `n` does not
  -- wrap, the spacer strategy keeps what the buffer relies on, with room for `n` items: the indices
  -- stay in the storage, size, empty and full agree, and the front and the back move by the number
  -- of items.
  pub spacer-IsStrategy : IsStrategy (spacer_strategy n m w) n (IsSpaced n)
  spacer-IsStrategy = record {
    room = omega arith;
    start = (omega arith, unfold size in refl);
    front_in = λ i v. omega arith;
    size_in = λ i v. omega (arith, size-cases i v);
    back_at = spacer-back_at;
    last_at = spacer-last_at;
    empty_iff = λ i v. (
      λ e. omega (arith, size-cases i v, (==_iff i.from i.to).0 e),
      λ e. (==_iff i.from i.to).1 (omega (arith, size-cases i v)),
    );
    full_iff = λ i v. ==_iff (size n m w i) n;
    back_moves = spacer-back_moves;
    front_moves = spacer-front_moves;
  }
