-- ===== src/StaticVector/Tests.antt =====
-- Runs of the vector, and its theorems at concrete vectors.
use emlabcpp.Prelude.{ℕ, ◌≡◌, refl, arith, none, some, [], ◌∷◌}
use emlabcpp.StaticVector.{Vector, new, push_back, take_back, swap}
use emlabcpp.StaticVector.Refine.{Holds}
use emlabcpp.StaticVector.Swap.{swap-Holds}

abbrev long : Vector ℕ
long = record { storage = some 1 ∷ some 2 ∷ some 3 ∷ none ∷ []; size = 3 }

abbrev short : Vector ℕ
short = record { storage = some 7 ∷ none ∷ none ∷ none ∷ []; size = 1 }

long-Holds : Holds 4 long (1 ∷ 2 ∷ 3 ∷ [])
long-Holds = record { storage_at = (1, refl, omega arith); size_at = refl }

short-Holds : Holds 4 short (7 ∷ [])
short-Holds = record { storage_at = (3, refl, omega arith); size_at = refl }

push_twice : (take_back {A = ℕ} (push_back 5 (push_back 4 (new 3)))).0 ≡ some 5
unfolding take_back push_back new
push_twice = refl

swap-Holds_example :
    Holds 4 (swap long short).0 (7 ∷ []) × Holds 4 (swap long short).1 (1 ∷ 2 ∷ 3 ∷ [])
swap-Holds_example = swap-Holds 4 long short (1 ∷ 2 ∷ 3 ∷ []) (7 ∷ []) long-Holds short-Holds
