-- ===== src/Algorithm/Search.antt =====
-- algorithm.hpp: what the searches find.
use native.Mathlib.Nat.{mod-lt, div-add-mod, add-mod_right, mod-eq_of_lt, mul-mod_left}
use emlabcpp.Prelude.{
  ℕ, zero, suc, ◌+◌, ◌-◌, ◌*◌, ◌/◌, ◌%◌, ◌≤◌, ◌<◌, ◌≡◌, refl, ap, ◌∙◌, arith, Bool, true, false,
  not, some, List, [], ◌∷◌, length, take, get_elem?, All, ◌==◌, Bool-cases, inl, inr, ◌⊎◌,
}
use emlabcpp.Algorithm.{ceil_to, find_if, any_of, all_of, count, index_loop, find_if_index}

module _ {A : Type 0} (f : A → Bool) where
  -- No item before the one that is found fulfils the predicate.
  pub find_if_first : (cont : List A) → All (λ x. f x ≡ false) (take (find_if f cont) cont)
  unfolding find_if
  find_if_first [] = tt
  find_if_first (x ∷ cont) = elim (Bool-cases (f x)) [
    | inl yes' ↦ rw yes' tt
    | inr no' ↦ rw no' (no', find_if_first cont)
  ]

  -- The item that is found fulfils it, and none is found only when there is none.
  pub find_if_found :
      (cont : List A)
      → (find_if f cont ≡ length cont)
        ⊎ ((x : A) × (get_elem? cont (find_if f cont) ≡ some x) × (f x ≡ true))
  unfolding find_if
  find_if_found [] = inl refl
  find_if_found (x ∷ cont) = elim (Bool-cases (f x)) [
    | inl yes' ↦ rw yes' (inr (x, refl, yes'))
    | inr no' ↦
        rw no' (elim (find_if_found cont) [ inl past ↦ inl (ap suc past) | inr there ↦ inr there ])
  ]

  pub find_if_le : (cont : List A) → find_if f cont ≤ length cont
  unfolding find_if
  find_if_le [] = omega arith
  find_if_le (x ∷ cont) = ground (arith, find_if_le cont)

  pub any_of-count : (cont : List A) → any_of f cont ≡ not (count f cont == 0)
  unfolding any_of count find_if
  any_of-count [] = refl
  any_of-count (x ∷ cont) = ground (arith, any_of-count cont, find_if_le cont)

  pub all_of-true : (cont : List A) → All (λ x. f x ≡ true) cont → all_of f cont ≡ true
  unfolding all_of any_of find_if
  all_of-true [] h = refl
  all_of-true (x ∷ cont) h = ground (arith, h.0, all_of-true cont h.1)

index_loop_none :
    (f : ℕ → Bool) (n i : ℕ) → ((j : ℕ) → f j ≡ false) → index_loop f n (i + 1) i ≡ i + n
unfolding index_loop
index_loop_none f zero i h = omega arith
index_loop_none f (suc n) i h = rw (h (i + 1)) (index_loop_none f n (i + 1) h ∙ omega arith)

-- When no index fulfils the predicate, `find_if_index` of at least one index gives the last index,
-- and not the number of indices.
pub find_if_index_none :
    (f : ℕ → Bool) (n : ℕ) → ((i : ℕ) → f i ≡ false) → find_if_index f (suc n) ≡ n
unfolding find_if_index index_loop
find_if_index_none f n h = rw (h 0) (
    ap (λ (k : ℕ). index_loop f n k 0) {x = 0 + 1} (omega arith)
    ∙ index_loop_none f n 0 h
    ∙ omega arith)

-- The smallest multiple that is not below the value, when it fits the type.
pub ceil_to_lem :
    (range val base : ℕ)
    → 0 < base
    → val + base < range
    → (ceil_to range val base % base ≡ 0)
      × (val ≤ ceil_to range val base)
      × (ceil_to range val base < val + base)
ceil_to_lem range val base positive fits = elim (Bool-cases (val % base == 0)) [
  | inl exact ↦
      let none_left : val % base ≡ 0 = ground (arith, exact) in
      let same : ceil_to range val base ≡ val = unfold ceil_to in rw exact refl in
      (ap (λ (k : ℕ). k % base) same ∙ none_left, omega (arith, same), omega (arith, same))
  | inr some_left ↦
      let m = val % base in
      let q = val / base in
      let small : m < base = mod-lt val positive in
      let whole : base * q + m ≡ val = div-add-mod val base in
      let left : 0 < m = ground (arith, some_left) in
      let turn : val + base + (range - m) ≡ (q + 1) * base + range = omega (arith, whole, small) in
      let below : (q + 1) * base < range = omega (arith, whole, left) in
      let same : ceil_to range val base ≡ (q + 1) * base =
        unfold ceil_to in
        rw some_left (
          ap (λ (k : ℕ). k % range) turn
          ∙ add-mod_right ((q + 1) * base) range
          ∙ mod-eq_of_lt {n = (q + 1) * base} {m = range} below) in
      (
        ap (λ (k : ℕ). k % base) same ∙ mul-mod_left (q + 1) base,
        omega (arith, same, whole, small),
        omega (arith, same, whole, left),
      )
]
