-- ===== src/Pool/Start.antt =====
-- pool_resource.hpp: at the start every pool is free.
use emlabcpp.Prelude.{
  ℕ, zero, suc, ◌+◌, ◌%◌, ◌≤◌, ◌≡◌, refl, sym, ap, arith, List, [], ◌∷◌, ◌++◌, append_assoc,
  append-nil, length, length-append, ltb, leb, if◌then◌else◌, subst,
}
use emlabcpp.StaticVector.{Vector, new, push_back}
use emlabcpp.StaticVector.Refine.{Holds, new-Holds, push_back-Holds}
use emlabcpp.Pool.{pool_resource, fill_loop}
use emlabcpp.Pool.Laws.{occurs, IsPool}

abbrev range_from : ℕ → ℕ → List ℕ
range_from zero i = []
range_from (suc n) i = i ∷ range_from n (i + 1)

fill_loop-Holds :
    (pool_count n i : ℕ) (free : Vector ℕ) (xs : List ℕ)
    → length xs + n ≤ pool_count
    → i + n ≤ 65536
    → Holds pool_count free xs
    → Holds pool_count (fill_loop n i free) (xs ++ range_from n i)
unfolding fill_loop
fill_loop-Holds pool_count zero i free xs room narrow h =
    subst (Holds pool_count free) (sym (append-nil xs)) h
fill_loop-Holds pool_count (suc n) i free xs room narrow h =
    let cast : i % 65536 ≡ i = omega arith in
    let pushed : Holds pool_count (push_back (i % 65536) free) (xs ++ (i ∷ [])) =
      subst (λ (k : ℕ). Holds pool_count (push_back k free) (xs ++ (i ∷ []))) (sym cast)
        (push_back-Holds pool_count i free xs (omega arith) h) in
    subst (Holds pool_count (fill_loop n (i + 1) (push_back (i % 65536) free)))
      (append_assoc xs (i ∷ []) (range_from n (i + 1)))
      (fill_loop-Holds pool_count n (i + 1) (push_back (i % 65536) free) (xs ++ (i ∷ []))
        (omega (arith, length-append xs (i ∷ []))) (omega arith) pushed)

occurs-range_from :
    (n i j : ℕ)
    → occurs j (range_from n i) ≡ (if leb i j then (if ltb j (i + n) then 1 else 0) else 0)
unfolding occurs
occurs-range_from zero i j = ground arith
occurs-range_from (suc n) i j = ground (arith, occurs-range_from n (i + 1) j)

length-range_from : (n i : ℕ) → length (range_from n i) ≡ n
length-range_from zero i = refl
length-range_from (suc n) i = ap suc (length-range_from n (i + 1))

pub pool_resource-IsPool :
    (pool_count : ℕ) → pool_count ≤ 65536 → IsPool pool_count (pool_resource pool_count) []
unfolding pool_resource occurs
pool_resource-IsPool pool_count narrow = record {
  indices = range_from pool_count 0;
  free_at =
      fill_loop-Holds pool_count pool_count 0 (new pool_count) [] (omega arith) (omega arith)
        (new-Holds pool_count);
  total = omega (arith, length-range_from pool_count 0);
  once = λ j. ground (arith, occurs-range_from pool_count 0 j);
}
