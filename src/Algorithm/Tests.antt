-- ===== src/Algorithm/Tests.antt =====
-- Runs of the algorithms, and a theorem at a concrete predicate.
use emlabcpp.Prelude.{ℕ, ◌≡◌, refl, false, [], ◌∷◌, ◌==◌}
use emlabcpp.Algorithm.{ceil_to, find_if_index, min_max_elem, sum, joined, contains}
use emlabcpp.Algorithm.Search.{find_if_index_none}

min_max_run : min_max_elem 256 (λ (x : ℕ). x) (3 ∷ 9 ∷ 5 ∷ []) ≡ (3, 9)
unfolding min_max_elem
min_max_run = refl

sum_run : sum 256 (λ (x : ℕ). x) 0 (200 ∷ 100 ∷ []) ≡ 44
unfolding sum
sum_run = refl

joined_run : joined (λ (x : ℕ). x ∷ []) (0 ∷ []) (1 ∷ 2 ∷ 3 ∷ []) ≡ 1 ∷ 0 ∷ 2 ∷ 0 ∷ 3 ∷ []
unfolding joined
joined_run = refl

ceil_run : ceil_to 256 13 8 ≡ 16
unfolding ceil_to
ceil_run = refl

found_run : find_if_index (λ i. i == 2) 5 ≡ 2
unfolding find_if_index
found_run = refl

contains_run : contains (4 ∷ 7 ∷ []) 5 ≡ false
unfolding contains
contains_run = refl

find_if_index_none_example : find_if_index (λ (i : ℕ). false) 3 ≡ 2
find_if_index_none_example = find_if_index_none (λ (i : ℕ). false) 2 (λ i. refl)
