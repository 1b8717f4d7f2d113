-- ===== src/StaticVector.antt =====
-- include/emlabcpp/static_vector.hpp: a vector in a static storage of N slots. A slot holds an item
-- or none. An operation that reads or removes the last item is asked for it only when there is one.
pub mod Refine
pub mod Copies
pub mod Loops
pub mod Swap
mod Tests
use emlabcpp.Prelude.{
  ℕ, zero, suc, ◌+◌, ◌-◌, Bool, true, false, ◌&&◌, not, Option, none, some, List, [], ◌∷◌, ◌++◌,
  map, length, set, get_or, take, drop, replicate, min, ltb, ◌==◌, if◌then◌else◌,
}

pub record Vector (A : Type 0) : Type 0 where
  pub storage : List (Option A)
  pub size : ℕ

module _ {A : Type 0} where
  unfoldable pub new : ℕ → Vector A
  new n = record { storage = replicate n none; size = 0 }

  -- `std::uninitialized_copy` to the front of the storage
  abbrev pub copy_from : List (Option A) → Vector A → Vector A
  copy_from cont v = record { storage = cont ++ drop (length cont) v.storage; size = length cont }

  -- the items from `begin()` to `end()`
  abbrev pub items : Vector A → List (Option A)
  items v = take v.size v.storage

  unfoldable pub filled : ℕ → ℕ → A → Vector A
  filled capacity n item =
      let n' = min n capacity in
      record { storage = replicate n' (some item) ++ replicate (capacity - n') none; size = n' }

  unfoldable pub clear : Vector A → Vector A
  clear v = record { storage = replicate v.size none ++ drop v.size v.storage; size = 0 }

  unfoldable pub copy : ℕ → Vector A → Vector A
  unfolding new
  copy capacity other = copy_from (items other) (new capacity)

  -- the new vector, and the other one after the move
  unfoldable pub move : ℕ → Vector A → Vector A × Vector A
  unfolding new clear
  move capacity other = (copy_from (items other) (new capacity), clear other)

  -- `operator=` of a vector; `self` is whether the other one is this one.
  unfoldable pub assign : Bool → Vector A → Vector A → Vector A
  unfolding clear
  assign self v other = if self then v else copy_from (items other) (clear v)

  unfoldable pub move_assign : Vector A → Vector A → Vector A × Vector A
  unfolding clear
  move_assign v other = (copy_from (items other) (clear v), clear other)

  unfoldable pub emplace_back : Option A → Vector A → Vector A
  emplace_back item v = record { storage = set v.storage v.size item; size = v.size + 1 }

  unfoldable pub push_back : A → Vector A → Vector A
  unfolding emplace_back
  push_back item v = emplace_back (some item) v

  unfoldable pub pop_back : Vector A → Vector A
  pop_back v = record { storage = set v.storage (v.size - 1) none; size = v.size - 1 }

  abbrev pub at : ℕ → Vector A → Option A
  at i v = get_or v.storage i none

  unfoldable pub front : Vector A → Option A
  front v = at 0 v

  unfoldable pub back : Vector A → Option A
  back v = at (v.size - 1) v

  unfoldable pub take_back : Vector A → Option A × Vector A
  unfolding back pop_back
  take_back v = (back v, pop_back v)

  unfoldable pub is_empty : Vector A → Bool
  is_empty v = v.size == 0

  unfoldable pub is_full : ℕ → Vector A → Bool
  is_full capacity v = v.size == capacity

  -- The loop of `swap` over the shared indices, with `n` of them left from `i` on.
  unfoldable pub swap_loop : ℕ → ℕ → Vector A → Vector A → Vector A × Vector A
  swap_loop zero i v w = (v, w)
  swap_loop (suc n) i v w =
      swap_loop n (i + 1) (record v { storage = set v.storage i (at i w) })
        (record w { storage = set w.storage i (at i v) })

  -- The loop that moves the items from index `i` on to the end of the other vector.
  unfoldable pub give_loop : ℕ → ℕ → Vector A → Vector A → Vector A
  unfolding emplace_back
  give_loop zero i from to = to
  give_loop (suc n) i from to = give_loop n (i + 1) from (emplace_back (at i from) to)

  unfoldable pub pop_times : ℕ → Vector A → Vector A
  unfolding pop_back
  pop_times zero v = v
  pop_times (suc n) v = pop_times n (pop_back v)

  unfoldable pub swap : Vector A → Vector A → Vector A × Vector A
  unfolding swap_loop give_loop pop_times
  swap v w =
      let shared_n = min v.size w.size in
      let (v1, w1) = swap_loop shared_n 0 v w in
      if ltb w.size v.size
      then (pop_times (v.size - shared_n) v1, give_loop (v.size - shared_n) shared_n v1 w1)
      else if ltb v.size w.size
      then (give_loop (w.size - shared_n) shared_n w1 v1, pop_times (w.size - shared_n) w1)
      else (v1, w1)
