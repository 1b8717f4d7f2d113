-- ===== src/StaticVector/Swap.antt =====
-- static_vector.hpp: `swap` exchanges the items, also of vectors with different numbers of them.
use emlabcpp.Prelude.{
  ℕ, ◌+◌, ◌-◌, ◌<◌, ◌≡◌, refl, sym, ap, ap₂, ◌∙◌, arith, true, false, Option, none, some, List, [],
  ◌++◌, map, append_assoc, append-nil, length, length-append, length-take, length-drop, take, drop,
  take-append-drop, replicate, min, ltb, subst, Bool-cases, inl, inr,
}
use emlabcpp.StaticVector.{Vector, swap_loop, give_loop, pop_times, swap}
use emlabcpp.StaticVector.Refine.{Holds, map-append, length-some}
use emlabcpp.StaticVector.Loops.{vector, swap_loop-lists, give_loop-Holds, pop_times-Holds}

module _ {A : Type 0} (capacity : ℕ) where
  split_storage :
      (v : Vector A) (xa xb : List A) (h : Holds capacity v (xa ++ xb))
      → v
        ≡ vector (map some xa ++ (map some xb ++ replicate h.storage_at.0 none)) (length (xa ++ xb))
  split_storage v xa xb h =
      ap₂ vector
        (h.storage_at.1
          ∙ ap (λ (t : List (Option A)). t ++ replicate h.storage_at.0 none) (map-append xa xb)
          ∙ append_assoc (map some xa) (map some xb) (replicate h.storage_at.0 none))
        h.size_at

  joined-Holds :
      (xa xb ya : List A) (r : ℕ)
      → length xa ≡ length ya
      → length (xa ++ xb) + r ≡ capacity
      → Holds capacity
          (vector (map some ya ++ (map some xb ++ replicate r none)) (length (xa ++ xb)))
          (ya ++ xb)
  joined-Holds xa xb ya r same count = record {
    storage_at = (
      r,
      sym (append_assoc (map some ya) (map some xb) (replicate r none))
          ∙ ap (λ (t : List (Option A)). t ++ replicate r none) (sym (map-append ya xb)),
      omega (arith, count, same, length-append xa xb, length-append ya xb),
    );
    size_at = omega (arith, same, length-append xa xb, length-append ya xb);
  }

  -- the loop over the shared indices
  swap_shared :
      (v w : Vector A) (xa xb ya yb : List A) (h : Holds capacity v (xa ++ xb))
      (h' : Holds capacity w (ya ++ yb))
      → length xa ≡ length ya
      → swap_loop (length xa) 0 v w ≡ (
        vector (map some ya ++ (map some xb ++ replicate h.storage_at.0 none)) (length (xa ++ xb)),
        vector (map some xa ++ (map some yb ++ replicate h'.storage_at.0 none)) (length (ya ++ yb)),
      )
  swap_shared v w xa xb ya yb h h' same =
      ap₂ (λ (a b : Vector A). swap_loop (length xa) 0 a b) (split_storage v xa xb h)
        (split_storage w ya yb h')
      ∙ ap
          (λ (n : ℕ).
            swap_loop n 0
              (vector (map some xa ++ (map some xb ++ replicate h.storage_at.0 none))
                (length (xa ++ xb)))
              (vector (map some ya ++ (map some yb ++ replicate h'.storage_at.0 none))
                (length (ya ++ yb))))
          (sym (length-some xa))
      ∙ swap_loop-lists capacity (map some xa) (map some ya) [] []
          (map some xb ++ replicate h.storage_at.0 none)
          (map some yb ++ replicate h'.storage_at.0 none) (length (xa ++ xb)) (length (ya ++ yb))
          refl (length-some xa ∙ same ∙ sym (length-some ya))

  -- The vector with more items pops those behind the shared ones, after it gave them to the other.
  given_Holds :
      (xa xb ya : List A) (r r' : ℕ)
      → length xa ≡ length ya
      → length (xa ++ xb) + r ≡ capacity
      → length (ya ++ []) + r' ≡ capacity
      → Holds capacity
          (pop_times
            (length xb)
            (vector (map some ya ++ (map some xb ++ replicate r none)) (length (xa ++ xb))))
          ya
        × Holds capacity
            (give_loop
              (length xb)
              (length xa)
              (vector (map some ya ++ (map some xb ++ replicate r none)) (length (xa ++ xb)))
              (vector (map some xa ++ ([] ++ replicate r' none)) (length (ya ++ []))))
            (xa ++ xb)
  given_Holds xa xb ya r r' same count count' =
      let v1 = vector (map some ya ++ (map some xb ++ replicate r none)) (length (xa ++ xb)) in
      let w1 = vector (map some xa ++ ([] ++ replicate r' none)) (length (ya ++ [])) in
      let w1-Holds =
        subst (Holds capacity w1) (append-nil xa) (joined-Holds ya [] xa r' (sym same) count') in
      (
        pop_times-Holds capacity xb v1 ya (joined-Holds xa xb ya r same count),
        subst (λ (k : ℕ). Holds capacity (give_loop (length xb) k v1 w1) (xa ++ xb))
            (length-some ya ∙ sym same)
            (give_loop-Holds capacity xb (map some ya) (replicate r none) (length (xa ++ xb)) w1 xa
              (omega (arith, count, length-append xa xb)) w1-Holds),
      )

  swap_longer :
      (v w : Vector A) (xa xb ya : List A)
      → length xa ≡ length ya
      → 0 < length xb
      → Holds capacity v (xa ++ xb)
      → Holds capacity w (ya ++ [])
      → Holds capacity (swap v w).0 ya × Holds capacity (swap v w).1 (xa ++ xb)
  swap_longer v w xa xb ya same more h h' =
      let wide = length-append xa xb in
      let wide' = length-append ya [] in
      let shared : min v.size w.size ≡ length xa =
        omega (arith, h.size_at, h'.size_at, wide, wide', same) in
      let rest : v.size - length xa ≡ length xb = omega (arith, h.size_at, wide) in
      let longer : ltb w.size v.size ≡ true =
        ground (arith, h.size_at, h'.size_at, wide, wide', same) in
      let loop = swap_shared v w xa xb ya [] h h' same in
      let v1 =
        vector (map some ya ++ (map some xb ++ replicate h.storage_at.0 none))
          (length (xa ++ xb)) in
      let w1 = vector (map some xa ++ ([] ++ replicate h'.storage_at.0 none)) (length (ya ++ [])) in
      let result : swap v w ≡ (pop_times (length xb) v1, give_loop (length xb) (length xa) v1 w1) =
        unfold swap in rw (longer, shared, rest, loop) refl in
      subst (λ (t : Vector A × Vector A). Holds capacity t.0 ya × Holds capacity t.1 (xa ++ xb))
        (sym result)
        (given_Holds xa xb ya h.storage_at.0 h'.storage_at.0 same h.storage_at.2 h'.storage_at.2)

  swap_shorter :
      (v w : Vector A) (xa ya yb : List A)
      → length xa ≡ length ya
      → 0 < length yb
      → Holds capacity v (xa ++ [])
      → Holds capacity w (ya ++ yb)
      → Holds capacity (swap v w).0 (ya ++ yb) × Holds capacity (swap v w).1 xa
  swap_shorter v w xa ya yb same more h h' =
      let wide = length-append xa [] in
      let wide' = length-append ya yb in
      let shared : min v.size w.size ≡ length xa =
        omega (arith, h.size_at, h'.size_at, wide, wide', same) in
      let rest : w.size - length xa ≡ length yb = omega (arith, h'.size_at, wide', same) in
      let shorter : ltb w.size v.size ≡ false =
        ground (arith, h.size_at, h'.size_at, wide, wide', same) in
      let longer : ltb v.size w.size ≡ true =
        ground (arith, h.size_at, h'.size_at, wide, wide', same) in
      let loop = swap_shared v w xa [] ya yb h h' same in
      let v1 = vector (map some ya ++ ([] ++ replicate h.storage_at.0 none)) (length (xa ++ [])) in
      let w1 =
        vector (map some xa ++ (map some yb ++ replicate h'.storage_at.0 none))
          (length (ya ++ yb)) in
      let result : swap v w ≡ (give_loop (length yb) (length ya) w1 v1, pop_times (length yb) w1) =
        unfold swap in rw (shorter, longer, shared, rest, loop, same) refl in
      let both =
        given_Holds ya yb xa h'.storage_at.0 h.storage_at.0 (sym same) h'.storage_at.2
          h.storage_at.2 in
      subst (λ (t : Vector A × Vector A). Holds capacity t.0 (ya ++ yb) × Holds capacity t.1 xa)
        (sym result) (both.1, both.0)

  swap_equal :
      (v w : Vector A) (xs ys : List A)
      → length xs ≡ length ys
      → Holds capacity v (xs ++ [])
      → Holds capacity w (ys ++ [])
      → Holds capacity (swap v w).0 ys × Holds capacity (swap v w).1 xs
  swap_equal v w xs ys same h h' =
      let wide = length-append xs [] in
      let wide' = length-append ys [] in
      let shared : min v.size w.size ≡ length xs =
        omega (arith, h.size_at, h'.size_at, wide, wide', same) in
      let not_longer : ltb w.size v.size ≡ false =
        ground (arith, h.size_at, h'.size_at, wide, wide', same) in
      let not_shorter : ltb v.size w.size ≡ false =
        ground (arith, h.size_at, h'.size_at, wide, wide', same) in
      let loop = swap_shared v w xs [] ys [] h h' same in
      let v1 = vector (map some ys ++ ([] ++ replicate h.storage_at.0 none)) (length (xs ++ [])) in
      let w1 = vector (map some xs ++ ([] ++ replicate h'.storage_at.0 none)) (length (ys ++ [])) in
      let result : swap v w ≡ (v1, w1) =
        unfold swap in rw (not_longer, not_shorter, shared, loop) refl in
      subst (λ (t : Vector A × Vector A). Holds capacity t.0 ys × Holds capacity t.1 xs)
        (sym result)
        (
          subst (Holds capacity v1) (append-nil ys)
              (joined-Holds xs [] ys h.storage_at.0 same h.storage_at.2),
          subst (Holds capacity w1) (append-nil xs)
              (joined-Holds ys [] xs h'.storage_at.0 (sym same) h'.storage_at.2),
        )

  -- `swap` of two vectors of one capacity exchanges their items, also when they hold different
  -- numbers of them, and leaves no item in the other slots.
  pub swap-Holds :
      (v w : Vector A) (xs ys : List A)
      → Holds capacity v xs
      → Holds capacity w ys
      → Holds capacity (swap v w).0 ys × Holds capacity (swap v w).1 xs
  swap-Holds v w xs ys h h' =
      let n = length xs in
      let m = length ys in
      elim (Bool-cases (ltb m n)) [
        | inl more ↦
            let whole = take-append-drop m xs in
            let plain = append-nil ys in
            let longer : m < n = ground (arith, more) in
            subst (λ (t : List A). Holds capacity (swap v w).0 ys × Holds capacity (swap v w).1 t)
              whole
              (swap_longer v w (take m xs) (drop m xs) ys (omega (arith, length-take m xs))
                (omega (arith, length-drop m xs)) (subst (Holds capacity v) (sym whole) h)
                (subst (Holds capacity w) (sym plain) h'))
        | inr less ↦ elim (Bool-cases (ltb n m)) [
          | inl more ↦
              let whole = take-append-drop n ys in
              let plain = append-nil xs in
              let longer : n < m = ground (arith, more) in
              subst (λ (t : List A). Holds capacity (swap v w).0 t × Holds capacity (swap v w).1 xs)
                whole
                (swap_shorter v w xs (take n ys) (drop n ys) (omega (arith, length-take n ys))
                  (omega (arith, length-drop n ys)) (subst (Holds capacity v) (sym plain) h)
                  (subst (Holds capacity w) (sym whole) h'))
          | inr not_more ↦
              let same : n ≡ m = ground (arith, less, not_more) in
              swap_equal v w xs ys same (subst (Holds capacity v) (sym (append-nil xs)) h)
                (subst (Holds capacity w) (sym (append-nil ys)) h')
        ]
      ]
