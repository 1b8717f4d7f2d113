-- ===== src/Pool/Tests.antt =====
-- Runs of the resource, and its theorems after such runs.
use emlabcpp.Prelude.{ℕ, ◌≡◌, refl, arith, true, none, some, [], ◌∷◌}
use emlabcpp.StaticVector.{Vector, push_back, pop_back, back, is_empty}
use emlabcpp.Pool.{allocate, deallocate, pool_resource, align}
use emlabcpp.Pool.Blocks.{Block, AllApart, Used, fresh, allocated, Used-AllApart, deallocate-Used}

-- four pools of 16 bytes from the address 1000 on
abbrev block : ℕ → ℕ → Block
block ptr bytes = record { ptr = ptr; bytes = bytes }

abbrev one_used : Vector ℕ
one_used = record { storage = some 0 ∷ some 1 ∷ some 2 ∷ none ∷ []; size = 3 }

abbrev two_used : Vector ℕ
two_used = record { storage = some 0 ∷ some 1 ∷ none ∷ none ∷ []; size = 2 }

first_call : allocate 1000 16 4 65536 10 8 (pool_resource 4) ≡ (some 1048, one_used)
unfolding allocate pool_resource back pop_back is_empty push_back align
first_call = refl

second_call : allocate 1000 16 4 65536 8 8 one_used ≡ (some 1032, two_used)
unfolding allocate back pop_back is_empty align
second_call = refl

two_blocks : Used 1000 16 4 65536 two_used (block 1032 8 ∷ block 1048 10 ∷ [])
two_blocks =
    allocated 1032 8 8
      (allocated 1048 10 8 (fresh refl refl) (omega arith) (omega arith) (omega arith) (omega arith)
        first_call refl)
      (omega arith) (omega arith) (omega arith) (omega arith) second_call refl

Used-AllApart_example : AllApart (block 1032 8 ∷ block 1048 10 ∷ [])
Used-AllApart_example =
    Used-AllApart 1000 16 4 65536 (omega arith) (omega arith) (omega arith) two_used
      (block 1032 8 ∷ block 1048 10 ∷ []) two_blocks

deallocate-Used_example : (deallocate 1000 16 4 65536 1048 two_used).0 ≡ true
deallocate-Used_example =
    deallocate-Used 1000 16 4 65536 (omega arith) (omega arith) (omega arith) two_used
      (block 1032 8 ∷ []) [] (block 1048 10) two_blocks

-- No bytes at an alignment of 32 are at the end of pool 2, and are given back as pool 3.
no_bytes : allocate 1008 16 4 65536 0 32 one_used ≡ (some 1056, two_used)
unfolding allocate back pop_back is_empty align
no_bytes = refl

no_bytes_back : deallocate 1008 16 4 65536 1056 two_used ≡ (true, push_back 3 two_used)
unfolding deallocate
no_bytes_back = refl

-- With all but 8 bytes of the range requested, the sum wraps at an alignment of 32, and the request is
-- answered with a block that starts at the end of its pool.
too_many : allocate 1008 16 4 65536 65528 32 one_used ≡ (some 1056, two_used)
unfolding allocate back pop_back is_empty align
too_many = refl
