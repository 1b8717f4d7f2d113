-- ===== src/Cfg/Locate/Finish.antt =====
-- handler.hpp: the search for a page ends.
use emlabcpp.Prelude.{ℕ, zero, suc, ◌+◌, ◌/◌, ◌<◌, ◌≡◌, arith, true, Option, none, some, List}
use emlabcpp.Cfg.Page.{HdrState}
use emlabcpp.Cfg.Store.Bounds.{returned}
use emlabcpp.Cfg.Locate.{
  counter_range, behind_loop, locate_current_loop, locate_current_page, locate_next_loop,
  locate_next_page,
}

module _ {S : Type 0} (read : ℕ → S → Option (List ℕ) × S) (mem_size page_size : ℕ)
    (narrow : mem_size / page_size < counter_range) where
  current_loop_returned :
      (n i : ℕ) (hdr_st : Option HdrState) (s : S)
      → returned (locate_current_loop read mem_size page_size n i hdr_st s) ≡ true
  unfolding locate_current_loop behind_loop returned
  current_loop_returned zero i none s = ground (arith, narrow)
  current_loop_returned zero i (some st) s = ground (arith, narrow)
  current_loop_returned (suc n) i hdr_st s = grind (arith, current_loop_returned n (i + 1))

  pub locate_current_page-returned :
      (s : S) → 0 < page_size → returned (locate_current_page read mem_size page_size s) ≡ true
  unfolding locate_current_page returned
  locate_current_page-returned s some_size = grind (arith, some_size, current_loop_returned)

  next_loop_returned :
      (n i : ℕ) (hdr_st : Option HdrState) (s : S)
      → returned (locate_next_loop read mem_size page_size n i hdr_st s) ≡ true
  unfolding locate_next_loop behind_loop returned
  next_loop_returned zero i none s = ground (arith, narrow)
  next_loop_returned zero i (some st) s = ground (arith, narrow)
  next_loop_returned (suc n) i hdr_st s = grind (arith, next_loop_returned n (i + 1))

  pub locate_next_page-returned :
      (s : S) → 0 < page_size → returned (locate_next_page read mem_size page_size s) ≡ true
  unfolding locate_next_page returned
  locate_next_page-returned s some_size = grind (arith, some_size, next_loop_returned)
