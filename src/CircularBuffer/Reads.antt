-- ===== src/CircularBuffer/Reads.antt =====
-- static_circular_buffer.hpp and static_storage.hpp: what the reads of `_copy_n` give.
use mathlib.Core.Option
use emlabcpp.Prelude.{
  ℕ, zero, suc, ◌+◌, ◌-◌, ◌≤◌, ◌<◌, ◌≡◌, refl, sym, ap, ◌∙◌, arith, Bool, true, false, Option, none,
  some, List, [], ◌∷◌, ◌++◌, map, replicate, length, length-map, length-drop, take, drop,
  take-append-drop, take-length, take_front, ltb, ltb→lt, Bool-cases, inl, inr,
}
use emlabcpp.CircularBuffer.{Range, contiguous, collect, read_n, read_range}
use emlabcpp.CircularBuffer.Indexing.{Strategy}

pub collect-map : {A : Type 0} (xs : List A) → collect (map some xs) ≡ some xs
collect-map [] = refl
collect-map (x ∷ xs) = rw (collect-map xs)

-- The range has these items, and for a trivial item type the memory has them, too.
abbrev pub IsRange : {A : Type 0} → Bool → Range A → List A → Type 0
IsRange trivial range items =
    (range.items ≡ map some items)
    × (trivial ≡ true
        → (k n : ℕ) → k + n ≤ length items
        → take n (range.memory k ++ replicate n none) ≡ take n (drop k (map some items)))

by_fill :
    {A : Type 0} (n k : ℕ) (xs : List (Option A))
    → length xs < n
    → 0 < k
    → collect (take n (xs ++ replicate k none)) ≡ none
by_fill zero k xs h some_gap = absurd (omega arith)
by_fill (suc n) zero [] h some_gap = absurd (omega arith)
by_fill (suc n) (suc k) [] h some_gap = refl
by_fill (suc n) k (none ∷ xs) h some_gap = refl
by_fill {A} (suc n) k (some x ∷ xs) h some_gap =
    ap (λ (o : Option (List A)). Option.map (λ items. x ∷ items) o)
      (by_fill n k xs (omega arith) some_gap)

-- A read that passes the end of the memory finds no object.
pub collect_short :
    {A : Type 0} (n : ℕ) (xs : List (Option A))
    → length xs < n
    → collect (take n (xs ++ replicate n none)) ≡ none
collect_short n xs h = by_fill n n xs h (omega (arith, h))

module _ {A : Type 0} where
  pub contiguous-IsRange :
      (trivial : Bool) (items : List A) → IsRange trivial (contiguous items) items
  contiguous-IsRange trivial items = (
    refl,
    λ t k n fits.
        take_front n (drop k (map some items)) (replicate n none)
          (omega (arith, length-drop k (map some items), length-map items some)),
  )

  read_n-IsRange :
      (trivial : Bool) (range : Range A) (items : List A) (k n : ℕ)
      → IsRange trivial range items
      → k + n ≤ length items
      → read_n trivial range k n ≡ take n (drop k (map some items))
  unfolding read_n
  read_n-IsRange true range items k n ok fits = ok.1 refl k n fits
  read_n-IsRange false range items k n ok fits =
      ap (λ (t : List (Option A)). take n (drop k t)) ok.0

  pub read_range-IsRange :
      (s : Strategy) (trivial : Bool) (range : Range A) (items : List A) (c : ℕ)
      → IsRange trivial range items
      → collect (read_range s trivial range c) ≡ some items
  unfolding read_range
  read_range-IsRange s trivial range items c ok =
      let all = map some items in
      let count : length all ≡ length items = length-map items some in
      let size : length range.items ≡ length items =
        ap (λ (t : List (Option A)). length t) ok.0 ∙ count in
      rw size (elim (Bool-cases (ltb c (length items))) [
        | inl more ↦
            let short = ltb→lt c (length items) more in
            let first = read_n-IsRange trivial range items 0 c ok (omega (arith, short)) in
            let rest =
              read_n-IsRange trivial range items c (length items - c) ok (omega (arith, short)) in
            let whole : take (length items - c) (drop c all) ≡ drop c all =
              ap (λ (k : ℕ). take k (drop c all)) {x = length items - c} {y = length (drop c all)}
                (omega (arith, length-drop c all, count))
              ∙ take-length (drop c all) in
            rw (more, first, rest, whole, take-append-drop c all) (collect-map items)
        | inr less ↦
            let read = read_n-IsRange trivial range items 0 (length items) ok (omega arith) in
            let whole : take (length items) all ≡ all =
              ap (λ (k : ℕ). take k all) (sym count) ∙ take-length all in
            rw (less, read, whole) (collect-map items)
      ])
