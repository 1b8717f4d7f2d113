-- ===== src/CircularBuffer/Indexing.antt =====
-- The index strategies of the circular buffer: what they provide, what the buffer relies on, and the
-- two of the source. Indices are kept modulo the range of their integer type.
pub mod Spacer
pub mod Overflow
use emlabcpp.Prelude.{ℕ, ◌+◌, ◌-◌, ◌%◌, ◌≤◌, ◌<◌, ◌≡◌, ◌↔◌, Bool, true}

-- `from_` and `to_`
pub record Indices : Type 0 where
  pub from : ℕ
  pub to : ℕ

-- The members of a strategy. `incr_front()` is `incr_front( 1 )`, and so for the back.
pub record Strategy : Type 0 where
  pub max_size : ℕ
  pub front_idx : Indices → ℕ
  pub back_idx : Indices → ℕ
  pub last_idx : Indices → ℕ
  pub incr_front : ℕ → Indices → Indices
  pub incr_back : ℕ → Indices → Indices
  pub size : Indices → ℕ
  pub is_empty : Indices → Bool
  pub is_full : Indices → Bool

-- What the buffer relies on: the indices that are valid stand for a start and a number of at most
-- `n` slots that follow it round the storage.
pub record IsStrategy (s : Strategy) (n : ℕ) (Valid : Indices → Type 0) : Type 0 where
  pub room : (0 < s.max_size) × (n ≤ s.max_size)
  pub start : Valid (record { from = 0; to = 0 }) × (s.size (record { from = 0; to = 0 }) ≡ 0)
  pub front_in : (i : Indices) → Valid i → s.front_idx i < s.max_size
  pub size_in : (i : Indices) → Valid i → s.size i ≤ n
  pub back_at : (i : Indices) → Valid i → s.back_idx i ≡ (s.front_idx i + s.size i) % s.max_size
  pub last_at :
      (i : Indices)
      → Valid i
      → 0 < s.size i
      → s.last_idx i ≡ (s.front_idx i + (s.size i - 1)) % s.max_size
  pub empty_iff : (i : Indices) → Valid i → (s.is_empty i ≡ true) ↔ (s.size i ≡ 0)
  pub full_iff : (i : Indices) → Valid i → (s.is_full i ≡ true) ↔ (s.size i ≡ n)
  pub back_moves :
      (i : Indices) (k : ℕ)
      → Valid i
      → s.size i + k ≤ n
      → Valid (s.incr_back k i)
        × (s.size (s.incr_back k i) ≡ s.size i + k)
        × (s.front_idx (s.incr_back k i) ≡ s.front_idx i)
  pub front_moves :
      (i : Indices) (k : ℕ)
      → Valid i
      → k ≤ s.size i
      → Valid (s.incr_front k i)
        × (s.size (s.incr_front k i) + k ≡ s.size i)
        × (s.front_idx (s.incr_front k i) ≡ (s.front_idx i + k) % s.max_size)
