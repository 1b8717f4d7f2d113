-- ===== src/Algorithm.antt =====
-- include/emlabcpp/algorithm.hpp: searches and folds. A container is the list of its items, an
-- iterator into it a position, and its end the length. An integer is below `range`.
pub mod Search
mod Tests
use emlabcpp.Prelude.{
  ℕ, zero, suc, ◌+◌, ◌-◌, ◌*◌, ◌%◌, Bool, true, false, not, ◌&&◌, Option, List, [], ◌∷◌, ◌++◌, map,
  length, min, max, ◌==◌, if◌then◌else◌,
}

unfoldable pub ceil_to : ℕ → ℕ → ℕ → ℕ
ceil_to range val base =
    let m = val % base in if m == 0 then val else (val + base + (range - m)) % range

module _ {A : Type 0} where
  unfoldable pub find_if : (A → Bool) → List A → ℕ
  find_if f [] = 0
  find_if f (x ∷ cont) = if f x then 0 else suc (find_if f cont)

  unfoldable pub any_of : (A → Bool) → List A → Bool
  unfolding find_if
  any_of f cont = not (find_if f cont == length cont)

  unfoldable pub none_of : (A → Bool) → List A → Bool
  unfolding any_of
  none_of f cont = not (any_of f cont)

  unfoldable pub all_of : (A → Bool) → List A → Bool
  unfolding any_of
  all_of f cont = not (any_of (λ item. not (f item)) cont)

  unfoldable pub count : (A → Bool) → List A → ℕ
  count f [] = 0
  count f (x ∷ cont) = (if f x then 1 else 0) + count f cont

  unfoldable pub accumulate : {B : Type 0} → (B → A → B) → B → List A → B
  accumulate f init [] = init
  accumulate f init (x ∷ cont) = accumulate f (f init x) cont

  unfoldable pub sum : ℕ → (A → ℕ) → ℕ → List A → ℕ
  sum range f init [] = init
  sum range f init (x ∷ cont) = sum range f ((init + f x) % range) cont

  unfoldable pub max_elem : (A → ℕ) → List A → ℕ
  unfolding accumulate
  max_elem f cont = accumulate (λ val x. max (f x) val) 0 cont

  -- The greatest value of the type is `range - 1`.
  unfoldable pub min_elem : ℕ → (A → ℕ) → List A → ℕ
  unfolding accumulate
  min_elem range f cont = accumulate (λ val x. min (f x) val) (range - 1) cont

  -- the smallest value and the largest one
  unfoldable pub min_max_elem : ℕ → (A → ℕ) → List A → ℕ × ℕ
  unfolding accumulate
  min_max_elem range f cont =
      accumulate {B = ℕ × ℕ} (λ res x. (min res.0 (f x), max res.1 (f x))) (range - 1, 0) cont

  unfoldable pub equal_loop : {B : Type 0} → (A → B → Bool) → List A → List B → Bool
  equal_loop f [] rh = true
  equal_loop f (x ∷ lh) [] = false
  equal_loop f (x ∷ lh) (y ∷ rh) = if f x y then equal_loop f lh rh else false

  unfoldable pub equal : {B : Type 0} → (A → B → Bool) → List A → List B → Bool
  unfolding equal_loop
  equal f lh rh = if length lh == length rh then equal_loop f lh rh else false

  -- `joined` of strings, whose `operator+` is `++`
  unfoldable pub joined_loop : {B : Type 0} → (A → List B) → List B → List B → List A → List B
  joined_loop f val res [] = res
  joined_loop f val res (x ∷ cont) = joined_loop f val (res ++ (val ++ f x)) cont

  unfoldable pub joined : {B : Type 0} → (A → List B) → List B → List A → List B
  unfolding joined_loop
  joined f val [] = []
  joined f val (x ∷ cont) = joined_loop f val (f x) cont

unfoldable pub find : List ℕ → ℕ → ℕ
unfolding find_if
find cont item = find_if (λ sub_item. sub_item == item) cont

unfoldable pub contains : List ℕ → ℕ → Bool
unfolding find
contains cont item = not (find cont item == length cont)

-- The loop of `find_if_index` with `n` indices left from `i` on; `res` is what the last call set.
unfoldable pub index_loop : (ℕ → Bool) → ℕ → ℕ → ℕ → ℕ
index_loop f zero i res = res
index_loop f (suc n) i res = if f i then i else index_loop f n (i + 1) i

unfoldable pub find_if_index : (ℕ → Bool) → ℕ → ℕ
unfolding index_loop
find_if_index f n = index_loop f n 0 n
