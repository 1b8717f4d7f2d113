-- ===== src/StaticVector/Refine.antt =====
-- static_vector.hpp: a vector against the list of its items.
use emlabcpp.Prelude.{
  ℕ, suc, ◌+◌, ◌-◌, ◌<◌, ◌≡◌, refl, sym, ap, ap₂, ◌∙◌, arith, Option, none, some, List, [], ◌∷◌,
  ◌++◌, map, append_assoc, length, length-append, length-map, set, get_or, take, drop, take-append,
  drop-append, replicate, replicate-add,
}
use emlabcpp.StaticVector.{
  Vector, new, items, clear, emplace_back, push_back, pop_back, back, take_back,
}

-- The vector has the items in its first slots, and no item in the others.
pub record Holds {A : Type 0} (capacity : ℕ) (v : Vector A) (xs : List A) : Type 0 where
  pub storage_at :
      (r : ℕ) × (v.storage ≡ map some xs ++ replicate r none) × (length xs + r ≡ capacity)
  pub size_at : v.size ≡ length xs

module _ {A : Type 0} where
  pub map-append :
      (xs ys : List A) → map {B = Option A} some (xs ++ ys) ≡ map some xs ++ map some ys
  map-append [] ys = refl
  map-append (x ∷ xs) ys = ap (λ (t : List (Option A)). some x ∷ t) (map-append xs ys)

  pub set-end :
      (xs : List (Option A)) (old v : Option A) (ys : List (Option A))
      → set (xs ++ (old ∷ ys)) (length xs) v ≡ xs ++ (v ∷ ys)
  set-end [] old v ys = refl
  set-end (x ∷ xs) old v ys = ap (λ (t : List (Option A)). x ∷ t) (set-end xs old v ys)

  pub get_or-end :
      (xs : List (Option A)) (x d : Option A) (ys : List (Option A))
      → get_or (xs ++ (x ∷ ys)) (length xs) d ≡ x
  get_or-end [] x d ys = refl
  get_or-end (y ∷ xs) x d ys = get_or-end xs x d ys

  pub length-some : (xs : List A) → length (map {B = Option A} some xs) ≡ length xs
  length-some xs = length-map xs (λ x. some x)

  pub new-Holds : (capacity : ℕ) → Holds capacity (new {A = A} capacity) []
  unfolding new
  new-Holds capacity = record { storage_at = (capacity, refl, omega arith); size_at = refl }

  pub items-Holds :
      {capacity : ℕ} {v : Vector A} {xs : List A} → Holds capacity v xs → items v ≡ map some xs
  items-Holds {v = v} {xs = xs} h =
      ap₂ (λ (n : ℕ) (t : List (Option A)). take n t) (h.size_at ∙ sym (length-some xs))
        h.storage_at.1
      ∙ take-append (map some xs) (replicate h.storage_at.0 none)

  pub push_back-Holds :
      (capacity : ℕ) (x : A) (v : Vector A) (xs : List A)
      → length xs < capacity
      → Holds capacity v xs
      → Holds capacity (push_back x v) (xs ++ (x ∷ []))
  unfolding push_back emplace_back
  push_back-Holds capacity x v xs room h =
      let (r, split, count) = h.storage_at in
      let grown : v.storage ≡ map some xs ++ (none ∷ replicate (r - 1) none) =
        split
        ∙ ap (λ (n : ℕ). map some xs ++ replicate n none) {x = r} {y = suc (r - 1)}
            (omega (arith, room, count)) in
      record {
        storage_at = (
          r - 1,
          ap₂ (λ (t : List (Option A)) (n : ℕ). set t n (some x)) grown
                (h.size_at ∙ sym (length-some xs))
              ∙ set-end (map some xs) none (some x) (replicate (r - 1) none)
              ∙ sym (append_assoc (map some xs) (some x ∷ []) (replicate (r - 1) none))
              ∙ ap (λ (t : List (Option A)). t ++ replicate (r - 1) none)
                  (sym (map-append xs (x ∷ []))),
          omega (arith, count, room, length-append xs (x ∷ [])),
        );
        size_at = omega (arith, h.size_at, length-append xs (x ∷ []));
      }

  pub take_back-Holds :
      (capacity : ℕ) (x : A) (v : Vector A) (xs : List A)
      → Holds capacity v (xs ++ (x ∷ []))
      → ((take_back v).0 ≡ some x) × Holds capacity (take_back v).1 xs
  unfolding take_back pop_back back
  take_back-Holds capacity x v xs h =
      let (r, split, count) = h.storage_at in
      let wide = length-append xs (x ∷ []) in
      let last : v.size - 1 ≡ length (map {B = Option A} some xs) =
        omega (arith, h.size_at, wide, length-some xs) in
      let grown : v.storage ≡ map some xs ++ (some x ∷ replicate r none) =
        split
        ∙ ap (λ (t : List (Option A)). t ++ replicate r none) (map-append xs (x ∷ []))
        ∙ append_assoc (map some xs) (some x ∷ []) (replicate r none) in
      (
        ap₂ (λ (t : List (Option A)) (n : ℕ). get_or t n none) grown last
            ∙ get_or-end (map some xs) (some x) none (replicate r none),
        record {
          storage_at = (
            suc r,
            ap₂ (λ (t : List (Option A)) (n : ℕ). set t n none) grown last
                ∙ set-end (map some xs) (some x) none (replicate r none),
            omega (arith, count, wide),
          );
          size_at = omega (arith, last, length-some xs);
        },
      )

  pub clear-Holds :
      (capacity : ℕ) (v : Vector A) (xs : List A)
      → Holds capacity v xs
      → Holds capacity (clear v) []
  unfolding clear
  clear-Holds capacity v xs h =
      let (r, split, count) = h.storage_at in
      record {
        storage_at = (
          length xs + r,
          ap₂ (λ (n : ℕ) (t : List (Option A)). replicate n none ++ drop n t) h.size_at split
              ∙ ap (λ (t : List (Option A)). replicate (length xs) none ++ t)
                  (ap (λ (n : ℕ). drop n (map some xs ++ replicate r none)) (sym (length-some xs))
                    ∙ drop-append (map some xs) (replicate r none))
              ∙ sym (replicate-add (length xs) r none),
          omega (arith, count),
        );
        size_at = refl;
      }
