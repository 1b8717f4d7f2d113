-- ===== src/StaticVector/Copies.antt =====
-- static_vector.hpp: copies and moves.
use emlabcpp.Prelude.{
  ℕ, ◌+◌, ◌≡◌, ap, ap₂, ◌∙◌, arith, Option, none, List, [], ◌++◌, length, drop, replicate,
  drop-replicate,
}
use emlabcpp.StaticVector.{Vector, new, copy_from, items, clear, copy, move, move_assign}
use emlabcpp.StaticVector.Refine.{Holds, length-some, new-Holds, items-Holds, clear-Holds}

module _ {A : Type 0} (capacity : ℕ) where
  copy_from-Holds :
      (v other : Vector A) (xs : List A)
      → Holds capacity v []
      → Holds capacity other xs
      → Holds capacity (copy_from (items other) v) xs
  copy_from-Holds v other xs fresh h =
      let (r, split, count) = h.storage_at in
      let (free, blank, all) = fresh.storage_at in
      let same = items-Holds h in
      let wide : length (items other) ≡ length xs =
        ap (λ (t : List (Option A)). length t) same ∙ length-some xs in
      record {
        storage_at = (
          r,
          ap₂ (λ (t u : List (Option A)). t ++ u) same
              (ap₂ (λ (n : ℕ) (t : List (Option A)). drop n t) wide
                  (blank
                    ∙ ap (λ (n : ℕ). replicate n none) {x = free} {y = length xs + r}
                        (omega (arith, count, all)))
                ∙ drop-replicate (length xs) r none),
          count,
        );
        size_at = wide;
      }

  pub copy-Holds :
      (other : Vector A) (xs : List A)
      → Holds capacity other xs
      → Holds capacity (copy capacity other) xs
  unfolding copy
  copy-Holds other xs h = copy_from-Holds (new capacity) other xs (new-Holds capacity) h

  -- A move gives the items, and clears the other vector.
  pub move-Holds :
      (other : Vector A) (xs : List A)
      → Holds capacity other xs
      → Holds capacity (move capacity other).0 xs × Holds capacity (move capacity other).1 []
  unfolding move
  move-Holds other xs h = (
    copy_from-Holds (new capacity) other xs (new-Holds capacity) h,
    clear-Holds capacity other xs h,
  )

  pub move_assign-Holds :
      (v other : Vector A) (xs ys : List A)
      → Holds capacity v xs
      → Holds capacity other ys
      → Holds capacity (move_assign v other).0 ys × Holds capacity (move_assign v other).1 []
  unfolding move_assign
  move_assign-Holds v other xs ys h h' = (
    copy_from-Holds (clear v) other ys (clear-Holds capacity v xs h) h',
    clear-Holds capacity other ys h',
  )
