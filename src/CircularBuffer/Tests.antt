-- ===== src/CircularBuffer/Tests.antt =====
-- Runs of the circular buffer, and its theorems at concrete buffers.
use mathlib.Core.Option.{bind, some-injective}
use emlabcpp.Prelude.{ℕ, ◌+◌, ◌≡◌, refl, sym, subst, arith, true, false, none, some, List, [], ◌∷◌}
use emlabcpp.CircularBuffer.{
  move_assign, advance, next_pos, prev_pos, retreat, Buffer, contiguous, fresh, copy,
  copy_range_back, place_back, read_range, read_n, push_back, pop_front, pop_front_n, elements,
}
use emlabcpp.CircularBuffer.Indexing.{Strategy, IsStrategy}
use emlabcpp.CircularBuffer.Indexing.Spacer.{spacer_strategy, spacer-IsStrategy, IsSpaced}
use emlabcpp.CircularBuffer.Indexing.Overflow.{
  overflow_strategy, overflow-IsStrategy, IsOverflowing,
}
use emlabcpp.CircularBuffer.Indexing.Spacer
use emlabcpp.CircularBuffer.Indexing.Overflow
use emlabcpp.CircularBuffer.Refine.{Holds, fresh-Holds}
use emlabcpp.CircularBuffer.Reads.{contiguous-IsRange}
use emlabcpp.CircularBuffer.Moves.{copy_past_end, move_assign-Holds}
use emlabcpp.CircularBuffer.Steps.{iterator_steps}
use emlabcpp.CircularBuffer.Ranges.{copy_range_back-Holds}
use emlabcpp.CircularBuffer.Iteration.{elements-Holds, elements_full}
use emlabcpp.CircularBuffer.Trace.{
  Call, call_push_back, call_pop_front, call_copy_range_back, call_pop_front_n, run, run-Holds,
}

-- three elements in four slots, and four in four, with the indices of one byte
abbrev three : Strategy
three = spacer_strategy 3 256 2147483648

abbrev four : Strategy
four = overflow_strategy 4 256

three-IsStrategy : IsStrategy three 3 (IsSpaced 3)
three-IsStrategy = spacer-IsStrategy 3 256 2147483648 (omega arith) (omega arith)

four-IsStrategy : IsStrategy four 4 (IsOverflowing 4 256)
four-IsStrategy = overflow-IsStrategy 4 256 64 refl (omega arith) (omega arith)

spacer-IsStrategy_example : IsStrategy three 3 (IsSpaced 3)
spacer-IsStrategy_example = spacer-IsStrategy 3 256 2147483648 (omega arith) (omega arith)

overflow-IsStrategy_example : IsStrategy four 4 (IsOverflowing 4 256)
overflow-IsStrategy_example = overflow-IsStrategy 4 256 64 refl (omega arith) (omega arith)

-- calls that run round the end of the storage
abbrev calls : List (Call ℕ)
calls =
    call_copy_range_back true (1 ∷ 2 ∷ [])
    ∷ call_pop_front
    ∷ call_copy_range_back false (3 ∷ 4 ∷ [])
    ∷ call_pop_front_n 2
    ∷ call_push_back 5
    ∷ []

abbrev used_three : Buffer ℕ
used_three = record {
  storage = some 5 ∷ none ∷ none ∷ some 4 ∷ [];
  indices = record { from = 3; to = 1 };
}

run-Holds_example :
    (b : Buffer ℕ) × (run three calls (fresh three) ≡ some b)
    × Holds three (IsSpaced 3) b (4 ∷ 5 ∷ [])
unfolding bind
run-Holds_example =
    run-Holds three-IsStrategy calls (fresh three) [] (4 ∷ 5 ∷ []) refl
      (fresh-Holds three-IsStrategy)

used_three-Holds : Holds three (IsSpaced 3) used_three (4 ∷ 5 ∷ [])
unfolding bind copy_range_back place_back read_range read_n push_back pop_front pop_front_n fresh
    Spacer.incr_front Spacer.incr_back
used_three-Holds =
    let (b, made, held) =
      run-Holds three-IsStrategy calls (fresh three) [] (4 ∷ 5 ∷ []) refl
        (fresh-Holds three-IsStrategy) in
    subst (λ (t : Buffer ℕ). Holds three (IsSpaced 3) t (4 ∷ 5 ∷ []))
      (sym (some-injective used_three b made)) held

abbrev two : List ℕ
two = 4 ∷ 5 ∷ []

copy_range_back-Holds_example :
    (b : Buffer ℕ) × (copy_range_back three true (contiguous (7 ∷ [])) used_three ≡ some b)
    × Holds three (IsSpaced 3) b (4 ∷ 5 ∷ 7 ∷ [])
copy_range_back-Holds_example =
    copy_range_back-Holds three-IsStrategy true (contiguous (7 ∷ [])) (7 ∷ []) used_three
      (4 ∷ 5 ∷ []) (contiguous-IsRange true (7 ∷ [])) (omega arith) used_three-Holds

copy_past_end_example : copy three true used_three ≡ none
copy_past_end_example =
    copy_past_end three-IsStrategy used_three (4 ∷ 5 ∷ []) refl used_three-Holds (omega arith)

abbrev fill : List (Call ℕ)
fill = call_push_back 9 ∷ call_pop_front ∷ call_copy_range_back true (1 ∷ 2 ∷ 3 ∷ 4 ∷ []) ∷ []

abbrev filled : Buffer ℕ
filled = record {
  storage = some 4 ∷ some 1 ∷ some 2 ∷ some 3 ∷ [];
  indices = record { from = 1; to = 5 };
}

filled-Holds : Holds four (IsOverflowing 4 256) filled (1 ∷ 2 ∷ 3 ∷ 4 ∷ [])
unfolding bind copy_range_back place_back read_range read_n push_back pop_front pop_front_n fresh
    Overflow.incr_front Overflow.incr_back
filled-Holds =
    let (b, made, held) =
      run-Holds four-IsStrategy fill (fresh four) [] (1 ∷ 2 ∷ 3 ∷ 4 ∷ []) refl
        (fresh-Holds four-IsStrategy) in
    subst (λ (t : Buffer ℕ). Holds four (IsOverflowing 4 256) t (1 ∷ 2 ∷ 3 ∷ 4 ∷ []))
      (sym (some-injective filled b made)) held

elements_full_example : elements four filled ≡ []
elements_full_example = elements_full four-IsStrategy filled (1 ∷ 2 ∷ 3 ∷ 4 ∷ []) refl filled-Holds

elements-Holds_example : elements three used_three ≡ some 4 ∷ some 5 ∷ []
elements-Holds_example =
    elements-Holds three-IsStrategy used_three (4 ∷ 5 ∷ []) (omega arith) used_three-Holds

move_assign-Holds_example :
    (t : Buffer ℕ × Buffer ℕ) × (move_assign four false filled filled ≡ some t)
    × Holds four (IsOverflowing 4 256) t.0 (1 ∷ 2 ∷ 3 ∷ 4 ∷ [])
    × Holds four (IsOverflowing 4 256) t.1 []
move_assign-Holds_example =
    move_assign-Holds four-IsStrategy filled filled (1 ∷ 2 ∷ 3 ∷ 4 ∷ []) (1 ∷ 2 ∷ 3 ∷ 4 ∷ [])
      filled-Holds filled-Holds

iterator_steps_example :
    (advance four 0 3 ≡ 3)
    × (advance four (2 + 1) 3 ≡ next_pos four (advance four 2 3))
    × (prev_pos four (next_pos four 3) ≡ 3)
    × (retreat four 2 (advance four 2 3) ≡ 3)
iterator_steps_example = iterator_steps four 3 (omega arith) 2 (omega arith)
